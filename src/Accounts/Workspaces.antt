-- ===== src/Accounts/Workspaces.antt =====
-- Workspaces: `CreateWorkspace`, `CreateWorkspaceForKey`, `Workspaces`, `WorkspaceExists` of
-- internal/store/store.go, `WorkspacesFor` and `CreateWorkspaceOwned` of internal/store/tenancy.go.
use text.Mathlib.Text.{◌==◌ as text_eq}
use kasane_mcp.Prelude.{
  ℕ, Bool, true, ◌&&◌, ◌||◌, not, List, [], ◌∷◌, Option, none, some, Str, ltb, ◌==◌, is_some,
  if◌then◌else◌, Result, ok, err, invalid, forbidden, not_found, unavailable,
}
use kasane_mcp.GoText.{len, trim_space}
use kasane_mcp.Table.{Table, lookup}
use kasane_mcp.Tx.{Tx, Faults, pure, raise, statement, query, ◌>>=◌, ◌>>◌, transact, run}
use kasane_mcp.Core.Ids.{valid_uuid}
use kasane_mcp.Core.Validation.{is_empty}
use kasane_mcp.Store.Schema.{Env, WorkspaceRow}
use kasane_mcp.Server.Access.{Identity, principal}
use kasane_mcp.Accounts.Schema.{KeyRow, Db, insert_workspace}
use kasane_mcp.Accounts.Keys.{uuid_tx, owner_of, insert_grant, owned_by}

pub record Workspace : Type 0 where
  pub id : Str
  pub name : Str
  pub created_at : ℕ

unfoldable pub scan_workspace : Str → WorkspaceRow → Workspace
scan_workspace id row = record { id = id; name = row.name; created_at = row.created_at }

abbrev pub new_workspace : ℕ → Str → Option Str → WorkspaceRow
new_workspace now name owner = record { name = name; owner_username = owner; created_at = now }

-- INSERT INTO workspaces(…) … RETURNING id::text,name,created_at
unfoldable pub insert_returning : Str → WorkspaceRow → Tx Db Workspace
insert_returning id row = do statement (insert_workspace id row); pure (scan_workspace id row)

unfoldable pub create_with : ℕ → Option Str → Str → Db → Faults → Result Workspace × Db
create_with now none name db fs = (err unavailable, db)
create_with now (some id) name db fs = run (insert_returning id (new_workspace now name none)) db fs

-- `Store.CreateWorkspace`; `fresh` is what uuid() draws, if it does.
unfoldable pub create_workspace : ℕ → Option Str → Str → Db → Faults → Result Workspace × Db
create_workspace now fresh name db fs =
    if is_empty (trim_space name)
    then (err invalid, db)
    else create_with now fresh (trim_space name) db fs

-- `Store.CreateWorkspaceOwned`
unfoldable pub create_workspace_owned : ℕ → Str → Str → Str → Db → Faults → Result Workspace × Db
create_workspace_owned now fresh raw username db fs =
    let name = trim_space raw in
    if is_empty name || ltb 120 (len name) || is_empty username
    then (err invalid, db)
    else run (insert_returning fresh (new_workspace now name (some username))) db fs

abbrev pub home_of : Option KeyRow → Table WorkspaceRow → Option Str
home_of none workspaces = none
home_of (some key) workspaces = owner_of (lookup key.workspace_id workspaces)

-- The owner of the key's own workspace.
unfoldable pub key_owner : Str → Db → Option Str
key_owner k db = home_of (lookup k db.keys) db.workspaces

-- INSERT INTO workspaces(id,name,owner_username) VALUES($1,$2,(SELECT …)): one statement.
unfoldable pub insert_for : ℕ → Str → Str → Str → Db → Result (Unit {0} × Db)
insert_for now id k name db = insert_workspace id (new_workspace now name (key_owner k db)) db

unfoldable pub for_key_tx : ℕ → Str → Str → Str → Tx Db Workspace
for_key_tx now id k name = do
  exists ← query (λ (db : Db). is_some (lookup k db.keys))
  if not exists then raise not_found else (do
    statement (insert_for now id k name)
    statement (insert_grant k id)
    pure (scan_workspace id (new_workspace now name none)))

unfoldable pub for_key_with : Env → ℕ → Option Str → Str → Str → Db → Faults → Result Workspace × Db
for_key_with env now none key name db fs = (err unavailable, db)
for_key_with env now (some id) key name db fs =
    transact (uuid_tx (env.uuid key) (λ k. for_key_tx now id k name)) db fs

-- `Store.CreateWorkspaceForKey`
unfoldable pub create_workspace_for_key :
    Env → ℕ → Option Str → Str → Str → Db → Faults → Result Workspace × Db
create_workspace_for_key env now fresh key name db fs =
    if not (valid_uuid key) || is_empty (trim_space name)
    then (err invalid, db)
    else for_key_with env now fresh key (trim_space name) db fs

-- ORDER BY created_at,id; `before` is the order of the IDs.
insert_ordered : (Str → Str → Bool) → Workspace → List Workspace → List Workspace
insert_ordered before w [] = w ∷ []
insert_ordered before w (v ∷ ws) =
    let rest = insert_ordered before w ws in
    if ltb w.created_at v.created_at || (w.created_at == v.created_at && before w.id v.id)
    then w ∷ v ∷ ws
    else v ∷ rest

unfoldable pub scan_all :
    (Str → Str → Bool) → (WorkspaceRow → Bool) → Table WorkspaceRow → List Workspace
unfolding insert_ordered
scan_all before p [] = []
scan_all before p ((id, row) ∷ t) =
    let rest = scan_all before p t in
    if p row then insert_ordered before (scan_workspace id row) rest else rest

-- `Store.Workspaces`
unfoldable pub workspaces : (Str → Str → Bool) → Db → Faults → Result (List Workspace) × Db
workspaces before = run (query (λ (db : Db). scan_all before (λ _. true) db.workspaces))

-- `Store.WorkspacesFor`
unfoldable pub workspaces_for :
    (Str → Str → Bool) → Str → Db → Faults → Result (List Workspace) × Db
workspaces_for before username =
    run (query (λ (db : Db). scan_all before (λ row. owned_by username (some row)) db.workspaces))

-- `Store.WorkspaceExists`
unfoldable pub workspace_exists : Env → Str → Db → Faults → Result Bool × Db
workspace_exists env id db fs =
    if not (valid_uuid id)
    then (err invalid, db)
    else run (uuid_tx (env.uuid id) (λ w. query (λ (db : Db). is_some (lookup w db.workspaces)))) db
        fs

-- `kasane_workspace_create` of internal/server/workspace_tools.go, behind its `principal`.
bad_creator : Identity → Bool
bad_creator id =
    not id.can_create_workspaces
    || (not (text_eq id.access_mode "all") && not (text_eq id.access_mode "selected"))

create_as : Env → ℕ → Option Str → Str → Db → Faults → Result Identity → Result Workspace × Db
unfolding bad_creator
create_as env now fresh name db fs (err e) = (err e, db)
create_as env now fresh name db fs (ok id) =
    if bad_creator id
    then (err forbidden, db)
    else if is_empty (trim_space name) || ltb 120 (len (trim_space name))
    then (err invalid, db)
    else create_workspace_for_key env now fresh id.key_id (trim_space name) db fs

unfoldable pub workspace_create_tool :
    Env → Option Identity → ℕ → Option Str → Str → Db → Faults → Result Workspace × Db
unfolding create_as
workspace_create_tool env context now fresh name db fs =
    create_as env now fresh name db fs (principal context true)
