-- ===== src/Server/Tools.antt =====
-- The tool calls: internal/server/mcp.go and `kasane_move` of internal/server/workspace_tools.go.
-- `toolError` keeps the kind of an error, so it is not written here.
pub mod Guarded
use kasane_mcp.Prelude.{
  ℕ, Bool, true, false, ◌||◌, List, [], ◌∷◌, Option, none, some, Str, String, ℤ, pos, ltb_ℤ,
  if◌then◌else◌, Result, ok, err, Error, invalid,
}
use kasane_mcp.Tx.{Faults}
use kasane_mcp.Core.Types.{Memory, RememberInput, SearchInput, SearchResult, ContextResult}
use kasane_mcp.Core.Validation.{is_empty}
use kasane_mcp.Core.Pack.{pack_context}
use kasane_mcp.Search.{Repository, Index, search}
use kasane_mcp.Store.Schema.{Env, Db}
use kasane_mcp.Store.Remember.{remember}
use kasane_mcp.Store.Move.{move}
use kasane_mcp.Store.Records.{get, forget}
use kasane_mcp.Server.Access.{Identity, Grants, workspace_principal}

-- A budget of 0 stands for 12000.
unfoldable pub budget : ℤ → Result ℤ
budget (pos ℕ.zero) = ok (pos 12000)
budget n = if ltb_ℤ n (pos 1) || ltb_ℤ (pos 40000) n then err invalid else ok n

-- The tables that the access is checked on.
abbrev pub grants_of : Db → List (Str × Str) → Grants
grants_of db grants = record { workspaces = db.workspaces; grants = grants }

unfoldable pub permitted :
    {A : Type 0} → Db → Result Identity → (Identity → Result A × Db) → Result A × Db
permitted db (err e) k = (err e, db)
permitted db (ok id) k = k id

-- `id, e := a.workspacePrincipal(…)`, and the rest of the handler.
module _ (env : Env) (context : Option Identity) (grants : List (Str × Str)) (db : Db)
    (access : Faults) where
  unfoldable pub with_access :
      {A : Type 0} → Str → Bool → (Identity → Result A × Db) → Result A × Db
  unfolding permitted
  with_access ws write k =
      permitted db (workspace_principal env context ws write (grants_of db grants) access).0 k

  unfoldable pub remember_tool : ℕ → Option Str → Str → RememberInput → Faults → Result Memory × Db
  remember_tool now fresh ws in' fs =
      with_access ws true (λ id. remember env now fresh id.workspace in' db fs)

  unfoldable pub get_tool : Str → Str → Faults → Result Memory × Db
  get_tool ws memory fs = with_access ws false (λ id. get env id.workspace memory db fs)

  unfoldable pub forget_tool : ℕ → Str → Str → Faults → Result (Unit {0}) × Db
  forget_tool now ws memory fs =
      with_access ws true (λ id. forget env now id.workspace memory db fs)

  unfoldable pub move_tool : ℕ → Str → Str → Str → ℤ → Faults → Faults → Result Memory × Db
  move_tool now ws target memory expected access_target fs = with_access ws true (λ source.
      if is_empty target
      then (err invalid, db)
      else permitted db
          (workspace_principal env context target true (grants_of db grants) access_target).0
          (λ to. move env now source.workspace to.workspace memory expected db fs))

  unfoldable pub search_tool : Repository → Index → Str → SearchInput → Result SearchResult × Db
  search_tool repo index ws in' =
      with_access ws false (λ id. (search env.unicode repo index id.workspace in', db))

  -- The packed result of a search.
  unfoldable pub pack_found : ℤ → Result SearchResult → Result ContextResult
  pack_found n (err e) = err e
  pack_found n (ok found) =
      ok (record (pack_context found.memories n) { degraded = found.degraded })

  unfoldable pub context_of :
      Repository → Index → Str → Str → String → Result ℤ → Str → Result ContextResult
  unfolding pack_found
  context_of repo index query tag kind (err e) w = err e
  context_of repo index query tag kind (ok n) w = pack_found n (
      search env.unicode repo index w
        (record { kind = kind; query = query; tag = tag; limit = pos 50; offset = pos 0 }))

  unfoldable pub context_tool :
      Repository → Index → Str → Str → Str → String → ℤ → Result ContextResult × Db
  unfolding context_of budget
  context_tool repo index ws query tag kind n =
      with_access ws false
        (λ id. (context_of repo index query tag kind (budget n) id.workspace, db))
