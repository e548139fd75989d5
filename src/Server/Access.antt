-- ===== src/Server/Access.antt =====
-- Who may use which workspace: `principal` of internal/server/security.go and `workspacePrincipal` of
-- internal/server/workspace_tools.go.
pub mod Granted
use text.Mathlib.Text.{◌==◌ as text_eq}
use kasane_mcp.Prelude.{
  ℕ, Bool, true, false, ◌&&◌, ◌||◌, not, List, [], ◌∷◌, Option, none, some, String, Str, str_eq,
  is_some, if◌then◌else◌, Result, ok, err, invalid, forbidden, unavailable,
}
use kasane_mcp.GoText.{Unicode, to_lower}
use kasane_mcp.Table.{Table, lookup}
use kasane_mcp.Tx.{Tx, Faults, pure, raise, query, ◌>>=◌, run}
use kasane_mcp.Core.Ids.{valid_id}
use kasane_mcp.Core.Validation.{is_empty}
use kasane_mcp.Store.Schema.{Env, WorkspaceRow}

pub record Identity : Type 0 where
  pub username : Str
  pub csrf : Str
  pub workspace : Str
  pub scope : String
  pub key_id : Str
  pub access_mode : String
  pub role : String
  pub can_create_workspaces : Bool

-- The tables workspaces and agent_key_workspaces (key and workspace), with IDs as PostgreSQL prints
-- them.
pub record Grants : Type 0 where
  pub workspaces : Table WorkspaceRow
  pub grants : List (Str × Str)

-- The identity that the authentication has put into the context, if any.
unfoldable pub principal : Option Identity → Bool → Result Identity
principal none write = err unavailable
principal (some id) write =
    if is_empty id.workspace
    then err unavailable
    else if write && not (text_eq id.scope "write")
    then err forbidden
    else ok id

-- owner_username IS NOT DISTINCT FROM NULLIF(username,'')
unfoldable pub same_owner : Option Str → Str → Bool
same_owner none username = is_empty username
same_owner (some owner) username = not (is_empty username) && str_eq owner username

abbrev owned : Option WorkspaceRow → Str → Bool
owned none username = false
owned (some row) username = same_owner row.owner_username username

-- EXISTS(SELECT 1 FROM workspaces WHERE id=… AND owner_username IS NOT DISTINCT FROM …)
unfoldable pub owns : Str → Str → Grants → Bool
owns username w db = owned (lookup w db.workspaces) username

unfoldable pub granted : Str → Str → List (Str × Str) → Bool
granted key w [] = false
granted key w ((k, v) ∷ gs) = (str_eq k key && str_eq v w) || granted key w gs

-- A uuid parameter, which fails the statement if it cannot be read.
unfoldable pub param_tx : Option Str → (Str → Tx Grants Bool) → Tx Grants Bool
param_tx none k = raise unavailable
param_tx (some w) k = k w

-- switch id.AccessMode
unfoldable pub allowed_tx : Env → Identity → Str → Tx Grants Bool
allowed_tx env id ws =
    if text_eq id.access_mode "all"
    then param_tx (env.uuid ws) (λ w. query (owns id.username w))
    else if text_eq id.access_mode "selected"
    then param_tx (env.uuid id.key_id) (λ key.
      param_tx (env.uuid ws)
        (λ w. query (λ (db : Grants). granted key w db.grants && owns id.username w db)))
    else pure (str_eq ws id.workspace)

-- Behind the choice of the workspace.
unfoldable pub choose_tx : Env → Identity → Str → Tx Grants Identity
choose_tx env id ws = if not (valid_id ws) then raise invalid else (do
  allowed ← allowed_tx env id (to_lower env.unicode ws)
  if not allowed then raise forbidden else pure (record id { workspace = to_lower env.unicode ws }))

unfoldable pub workspace_tx : Env → Str → Result Identity → Tx Grants Identity
workspace_tx env ws (err e) = raise e
workspace_tx env ws (ok id) =
    if is_empty ws
    then (if text_eq id.access_mode "all" || text_eq id.access_mode "selected"
        then raise invalid
        else choose_tx env id id.workspace)
    else choose_tx env id ws

-- `App.workspacePrincipal`
unfoldable pub workspace_principal :
    Env → Option Identity → Str → Bool → Grants → Faults → Result Identity × Grants
workspace_principal env context ws write = run (workspace_tx env ws (principal context write))
