-- ===== src/Server/Tools/Guarded.antt =====
-- The writing tools of internal/server/mcp.go and a key without write scope.
use text.Mathlib.Text.{◌==◌ as text_eq}
use kasane_mcp.Prelude.{ℕ, ◌≡◌, refl, true, false, List, Option, some, Str, ℤ, Result, err, Error}
use kasane_mcp.Tx.{Faults}
use kasane_mcp.Core.Types.{RememberInput}
use kasane_mcp.Store.Schema.{Env, Db}
use kasane_mcp.Server.Access.{Identity, Grants}
use kasane_mcp.Server.Access.Granted as G
use kasane_mcp.Server.Tools.{grants_of, with_access, remember_tool, forget_tool, move_tool}

-- An answer to a call that writes is an error for a key without write scope.
denied :
    {env : Env} {id : Identity} {db db' : Grants} {r : Result Identity}
    → text_eq id.scope "write" ≡ false
    → G.Answer env (some id) true db r db'
    → (e : Error) × (r ≡ err e)
denied read_only (G.Answer.refused e) = (e, refl)
denied {id = id} read_only (G.Answer.allowed same a) =
    absurd (cc (read_only, a.may_write refl, a.authenticated))

module _ (env : Env) (id : Identity) (grants : List (Str × Str)) (db : Db) (access : Faults)
    (read_only : text_eq id.scope "write" ≡ false) where
  refused-keeps :
      {A : Type 0} (ws : Str) (k : Identity → Result A × Db)
      → (with_access env (some id) grants db access ws true k).1 ≡ db
  unfolding with_access
  refused-keeps ws k =
      let d =
        denied read_only
          (G.workspace_principal-Answer env (some id) ws true (grants_of db grants) access) in
      rw d.1 refl

  -- A key without write scope changes nothing by remember, forget and move, whatever the workspaces
  -- and the inputs it sends and whichever statements fail.
  pub read_only-keeps :
      (now : ℕ) (fresh : Option Str) (ws target memory : Str) (in' : RememberInput) (expected : ℤ)
      (access_target fs : Faults)
      → ((remember_tool env (some id) grants db access now fresh ws in' fs).1 ≡ db)
        × ((forget_tool env (some id) grants db access now ws memory fs).1 ≡ db)
        × ((move_tool env
              (some id)
              grants
              db
              access
              now
              ws
              target
              memory
              expected
              access_target
              fs).1
            ≡ db)
  unfolding remember_tool forget_tool move_tool
  read_only-keeps now fresh ws target memory in' expected access_target fs =
      (refused-keeps ws _, refused-keeps ws _, refused-keeps ws _)
