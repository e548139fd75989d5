-- ===== src/Accounts/Sound/Places.antt =====
-- New workspaces (internal/store/store.go, tenancy.go) on sound tables.
use kasane_mcp.Prelude.{
  ℕ, ◌≡◌, refl, subst, true, false, ◌||◌, not, ◌∷◌, Option, none, some, Str, str_eq_refl, arith,
  is_some, if-rule, Option-cases, inl, inr, ltb, Result, not_found,
}
use kasane_mcp.Table.{lookup}
use kasane_mcp.Tx.{Faults}
use kasane_mcp.Tx.Rules.{
  Sat, Sat-pure, Sat-raise, Sat-if, Sat-step, Sat-query, transact-rule, run-rule,
}
use kasane_mcp.GoText.{trim_space, len}
use kasane_mcp.Core.Ids.{valid_uuid}
use kasane_mcp.Core.Validation.{is_empty}
use kasane_mcp.Store.Schema.{Env, WorkspaceRow}
use kasane_mcp.Accounts.Schema.{KeyRow, Db, insert_workspace}
use kasane_mcp.Accounts.Keys.{same_owner, owner_of, not_distinct, insert_grant}
use kasane_mcp.Accounts.Workspaces.{
  Workspace, new_workspace, insert_returning, create_with, create_workspace, create_workspace_owned,
  key_owner, insert_for, for_key_tx, for_key_with, create_workspace_for_key,
}
use kasane_mcp.Accounts.Every.{Every-lookup, Every-weaken}
use kasane_mcp.Accounts.Sound.{IsSound, KeyOk, grant_ok, grant_ok-kept, GrantsOk-weaken}
use kasane_mcp.Accounts.Sound.Joins.{more-there, more-lookup, more-same_owner, insert_workspace-ok}
use kasane_mcp.Accounts.Sound.AgentKeys.{uuid_tx-Sat}
use kasane_mcp.Accounts.Sound.NewKeys.{insert_grant-ok, granted-IsSound}

more_workspaces-IsSound :
    (w : Str) (row : WorkspaceRow) (db : Db)
    → is_some (lookup w db.workspaces) ≡ false
    → IsSound db
    → IsSound (record db { workspaces = (w, row) ∷ db.workspaces })
more_workspaces-IsSound w row db absent s = record {
  admins = s.admins;
  accounts = s.accounts;
  admitted = s.admitted;
  emails = s.emails;
  sessions = s.sessions;
  keys =
      Every-weaken (λ key good. (good.0, more-there w row db absent key.workspace_id good.1))
        db.keys s.keys;
  grants =
      GrantsOk-weaken db _
        (grant_ok-kept db _ refl (more-there w row db absent) (more-same_owner w row db absent _ _))
        db.grants s.grants;
  keyed = s.keyed;
}

insert_returning-Sat :
    (w : Str) (row : WorkspaceRow) (db : Db)
    → IsSound db
    → Sat (insert_returning w row) db (λ _ db'. IsSound db')
unfolding insert_returning
insert_returning-Sat w row db s = Sat-step (insert_workspace w row) _ db (λ _ db' eq.
    let done = insert_workspace-ok w row db db' eq in
    Sat-pure _ db' (subst IsSound done.1 (more_workspaces-IsSound w row db done.0 s)))

create_with-IsSound :
    (now : ℕ) (fresh : Option Str) (name : Str) (db : Db) (fs : Faults)
    → IsSound db
    → IsSound (create_with now fresh name db fs).1
unfolding create_with
create_with-IsSound now none name db fs s = s
create_with-IsSound now (some id) name db fs s =
    run-rule (λ _ db'. IsSound db') _ db fs (λ _. s) (insert_returning-Sat id _ db s)

pub create_workspace-IsSound :
    (now : ℕ) (fresh : Option Str) (name : Str) (db : Db) (fs : Faults)
    → IsSound db
    → IsSound (create_workspace now fresh name db fs).1
unfolding create_workspace
create_workspace-IsSound now fresh name db fs s =
    if-rule (λ (r : Result Workspace × Db). IsSound r.1) (is_empty (trim_space name)) (λ _. s)
      (λ _. create_with-IsSound now fresh (trim_space name) db fs s)

pub create_workspace_owned-IsSound :
    (now : ℕ) (fresh raw username : Str) (db : Db) (fs : Faults)
    → IsSound db
    → IsSound (create_workspace_owned now fresh raw username db fs).1
unfolding create_workspace_owned
create_workspace_owned-IsSound now fresh raw username db fs s =
    if-rule (λ (r : Result Workspace × Db). IsSound r.1)
      (is_empty (trim_space raw) || ltb 120 (len (trim_space raw)) || is_empty username) (λ _. s)
      (λ _. run-rule (λ _ db'. IsSound db') _ db fs (λ _. s) (insert_returning-Sat fresh _ db s))

not_distinct_refl : (o : Option Str) → not_distinct o o ≡ true
unfolding not_distinct
not_distinct_refl none = refl
not_distinct_refl (some a) = str_eq_refl a

-- The new workspace has the owner of the key's own.
module _ (now : ℕ) (id k name : Str) (key : KeyRow) (db : Db) (s : IsSound db)
    (found : lookup k db.keys ≡ some key) (absent : is_some (lookup id db.workspaces) ≡ false) where
  abbrev place : WorkspaceRow
  place = new_workspace now name (key_owner k db)

  abbrev placed : Db
  placed = record db { workspaces = (id, place) ∷ db.workspaces }

  home_there : is_some (lookup key.workspace_id db.workspaces) ≡ true
  home_there = (Every-lookup (KeyOk db.workspaces) k db.keys key s.keys found).1

  head : lookup id ((id, place) ∷ db.workspaces) ≡ some place
  unfolding lookup
  head = rw (str_eq_refl id) refl

  same_home : key_owner k db ≡ owner_of (lookup key.workspace_id db.workspaces)
  unfolding key_owner
  same_home = rw (found) refl

  placed-same_owner : same_owner id key.workspace_id placed ≡ true
  unfolding same_owner
  placed-same_owner =
      rw (more-lookup id place db absent key.workspace_id home_there, head, same_home)
        (not_distinct_refl (owner_of (lookup key.workspace_id db.workspaces)))

  placed-grant_ok : grant_ok k id placed ≡ true
  placed-grant_ok =
      rw (grant_ok, found, more-there id place db absent key.workspace_id home_there)
        placed-same_owner

for_key_tx-Sat :
    (now : ℕ) (id k name : Str) (db : Db)
    → IsSound db
    → Sat (for_key_tx now id k name) db (λ _ db'. IsSound db')
unfolding for_key_tx insert_for
for_key_tx-Sat now id k name db s =
    Sat-query (λ (db : Db). is_some (lookup k db.keys)) _ db
      (Sat-if (not (is_some (lookup k db.keys))) db (λ _. Sat-raise not_found db)
        (λ there. Sat-step (insert_for now id k name) _ db (λ _ db1 eq1.
          let done1 = insert_workspace-ok id (new_workspace now name (key_owner k db)) db db1 eq1 in
          Sat-step (insert_grant k id) _ db1 (λ _ db2 eq2. Sat-pure _ db2 (
            subst IsSound (insert_grant-ok k id db1 db2 eq2) (
              subst (λ d. IsSound (record d { grants = (k, id) ∷ d.grants })) done1.1
                (elim (Option-cases (lookup k db.keys)) [
                  | inl none' ↦ absurd (ground arith)
                  | inr (key, found) ↦
                      granted-IsSound k id _ (placed-grant_ok now id k name key db s found done1.0)
                        (more_workspaces-IsSound id (new_workspace now name (key_owner k db)) db
                          done1.0 s)
                ])))))))

for_key_with-IsSound :
    (env : Env) (now : ℕ) (fresh : Option Str) (key name : Str) (db : Db) (fs : Faults)
    → IsSound db
    → IsSound (for_key_with env now fresh key name db fs).1
unfolding for_key_with
for_key_with-IsSound env now none key name db fs s = s
for_key_with-IsSound env now (some id) key name db fs s =
    transact-rule (λ _ db'. IsSound db') _ db fs (λ _. s)
      (uuid_tx-Sat (env.uuid key) _ db (λ k _. for_key_tx-Sat now id k name db s))

pub create_workspace_for_key-IsSound :
    (env : Env) (now : ℕ) (fresh : Option Str) (key name : Str) (db : Db) (fs : Faults)
    → IsSound db
    → IsSound (create_workspace_for_key env now fresh key name db fs).1
unfolding create_workspace_for_key
create_workspace_for_key-IsSound env now fresh key name db fs s =
    if-rule (λ (r : Result Workspace × Db). IsSound r.1)
      (not (valid_uuid key) || is_empty (trim_space name)) (λ _. s)
      (λ _. for_key_with-IsSound env now fresh key (trim_space name) db fs s)
