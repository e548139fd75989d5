-- ===== src/Accounts/Sound/NewKeys.antt =====
-- A new agent key, `App.keys` of internal/server/security.go, on sound tables.
use kasane_mcp.Prelude.{
  ok-cases, str_eq_refl, ℕ, ◌≡◌, refl, sym, subst, true, false, not, List, [], ◌∷◌, some, Str,
  str_eq, str_eq_iff, arith, is_some, if-rule, Bool-cases, inl, inr, ok, invalid,
}
use kasane_mcp.Table.{Table, lookup}
use kasane_mcp.Tx.{statement, Faults}
use kasane_mcp.Tx.Rules.{
  Sat, Sat-pure, Sat-raise, Sat-bind, Sat-weaken, Sat-if, Sat-step, Sat-query, Sat-statement,
  transact-rule,
}
use kasane_mcp.GoText.{to_lower}
use kasane_mcp.Store.Schema.{Env, WorkspaceRow}
use kasane_mcp.Server.Http.{Reply}
use kasane_mcp.Accounts.Schema.{KeyRow, Db}
use kasane_mcp.Accounts.Login.{Crypto}
use kasane_mcp.Accounts.Keys.{
  create_granted, owned_alike, same_owner, uuid_tx, NewKey, normalized, bad_name, bad_mode,
  key_grants, check_grants_tx, insert_key, insert_grant, insert_grants_tx, new_key, create_key_tx,
  create_key,
}
use kasane_mcp.Accounts.Sound.{IsSound, KeyOk, sane_key, grant_ok, GrantsOk-weaken}
use kasane_mcp.Accounts.Replies.{reply-state}
use kasane_mcp.Accounts.Sound.AgentKeys.{uuid_tx-Sat}

-- The workspaces of the grants have the owner of the home workspace.
abbrev Checked : Env → Str → Table WorkspaceRow → List Str → Type 0
Checked env h workspaces [] = Unit {0}
Checked env h workspaces (ws ∷ rest) =
    ((w : Str)
      → env.uuid ws ≡ some w
      → owned_alike (lookup w workspaces) (lookup h workspaces) ≡ true)
    × Checked env h workspaces rest

check_grants_tx-Sat :
    (env : Env) (home : Str) (grants : List Str) (db : Db)
    → Sat (check_grants_tx env home grants) db (λ _ db'.
      (db' ≡ db) × ((h : Str) → env.uuid home ≡ some h → Checked env h db.workspaces grants))
unfolding check_grants_tx same_owner
check_grants_tx-Sat env home [] db = Sat-pure tt db (refl, λ _ _. tt)
check_grants_tx-Sat env home (ws ∷ rest) db = uuid_tx-Sat (env.uuid ws) _ db (λ w ew.
    uuid_tx-Sat (env.uuid home) _ db (λ h eh. Sat-query (same_owner w h) _ db (
      Sat-if (not (same_owner w h db)) db (λ _. Sat-raise invalid db)
        (λ alike.
          Sat-weaken (λ _ db' r. (r.0, λ h' eh'. (λ w' ew'. ground arith, r.1 h' eh')))
            (check_grants_tx-Sat env home rest db)))))

insert_key-ok :
    (id : Str) (key : KeyRow) (db db' : Db)
    → insert_key id key db ≡ ok (tt, db')
    → (is_some (lookup id db.keys) ≡ false)
      × (is_some (lookup key.workspace_id db.workspaces) ≡ true)
      × (record db { keys = (id, key) ∷ db.keys } ≡ db')
unfolding insert_key
insert_key-ok id key db db' h = ground arith

pub insert_grant-ok :
    (id w : Str) (db db' : Db)
    → insert_grant id w db ≡ ok (tt, db')
    → record db { grants = (id, w) ∷ db.grants } ≡ db'
unfolding insert_grant
insert_grant-ok id w db db' h = ground arith

fresh-grant :
    (id : Str) (key : KeyRow) (db : Db) (k w : Str)
    → is_some (lookup id db.keys) ≡ false
    → grant_ok k w db ≡ true
    → grant_ok k w (record db { keys = (id, key) ∷ db.keys }) ≡ true
unfolding same_owner lookup
fresh-grant id key db k w fresh g = elim (Bool-cases (str_eq id k)) [
  | inl same ↦
      let gone =
        subst (λ (x : Str). is_some (lookup x db.keys) ≡ false) ((str_eq_iff id k).0 same) fresh in
      absurd (ground arith)
  | inr other ↦ rw (grant_ok, other) g
]

inserted-IsSound :
    (id : Str) (key : KeyRow) (db : Db)
    → is_some (lookup id db.keys) ≡ false
    → KeyOk db.workspaces key
    → IsSound db
    → IsSound (record db { keys = (id, key) ∷ db.keys })
inserted-IsSound id key db fresh good s = record {
  admins = s.admins;
  accounts = s.accounts;
  admitted = s.admitted;
  emails = s.emails;
  sessions = s.sessions;
  keys = (good, s.keys);
  grants =
      GrantsOk-weaken db (record db { keys = (id, key) ∷ db.keys })
        (λ k w g. fresh-grant id key db k w fresh g) db.grants s.grants;
  keyed = (ground arith, s.keyed);
}

pub granted-IsSound :
    (id w : Str) (db : Db)
    → grant_ok id w db ≡ true
    → IsSound db
    → IsSound (record db { grants = (id, w) ∷ db.grants })
unfolding same_owner
granted-IsSound id w db good s = record {
  admins = s.admins;
  accounts = s.accounts;
  admitted = s.admitted;
  emails = s.emails;
  sessions = s.sessions;
  keys = s.keys;
  grants = (
    good,
    GrantsOk-weaken db (record db { grants = (id, w) ∷ db.grants }) (λ k v g. g) db.grants s.grants,
  );
  keyed = s.keyed;
}

-- Grants of a key for selected workspaces that is there, one after the other.
insert_grants_tx-Sat :
    (env : Env) (id : Str) (key : KeyRow) (grants : List Str) (db : Db)
    → lookup id db.keys ≡ some key
    → is_some (lookup key.workspace_id db.workspaces) ≡ true
    → Checked env key.workspace_id db.workspaces grants
    → IsSound db
    → Sat (insert_grants_tx env id grants) db (λ _ db'. IsSound db')
unfolding insert_grants_tx same_owner
insert_grants_tx-Sat env id key [] db found there checked s = Sat-pure tt db s
insert_grants_tx-Sat env id key (ws ∷ rest) db found there checked s =
    uuid_tx-Sat (env.uuid ws) _ db (λ w ew. Sat-step (insert_grant id w) _ db (λ _ db' eq.
      subst (λ d. Sat (insert_grants_tx env id rest) d (λ _ db'. IsSound db'))
        (insert_grant-ok id w db db' eq)
        (insert_grants_tx-Sat env id key rest (record db { grants = (id, w) ∷ db.grants }) found
          there checked.1
          (granted-IsSound id w db (rw (grant_ok, found, there) (checked.0 w ew)) s))))

new_key-sane :
    (crypto : Crypto) (now : ℕ) (token w : Str) (in' : NewKey)
    → bad_name in' ≡ false
    → bad_mode in' ≡ false
    → sane_key (new_key crypto now token w in') ≡ true
unfolding bad_name bad_mode new_key
new_key-sane crypto now token w in' name mode = ground arith

module _ (crypto : Crypto) (env : Env) (now : ℕ) (id token home : Str) (in' : NewKey)
    (name : bad_name in' ≡ false) (mode : bad_mode in' ≡ false) (db : Db) (s : IsSound db) where
  abbrev Inserted : Db → Type 0
  Inserted db' =
      (h : Str) × (env.uuid home ≡ some h)
      × (is_some (lookup h db.workspaces) ≡ true)
      × (record db { keys = (id, new_key crypto now token h in') ∷ db.keys } ≡ db')
      × IsSound db'

  insert_tx-Sat :
      Sat
        (uuid_tx (env.uuid home) (λ w. statement (insert_key id (new_key crypto now token w in'))))
        db
        (λ _ db'. Inserted db')
  unfolding new_key
  insert_tx-Sat = uuid_tx-Sat (env.uuid home) _ db (λ h eh. Sat-statement _ db (λ _ db' eq.
      let done = insert_key-ok id (new_key crypto now token h in') db db' eq in
      (
        h,
        eh,
        done.1,
        done.2,
        subst IsSound done.2 (
            inserted-IsSound id (new_key crypto now token h in') db done.0
              (new_key-sane crypto now token h in' name mode, done.1) s),
      )))

  grants-Sat :
      (grants : List Str)
      → ((h : Str) → env.uuid home ≡ some h → Checked env h db.workspaces grants)
      → (db' : Db) → Inserted db'
      → Sat (insert_grants_tx env id grants) db' (λ _ db'. IsSound db')
  unfolding insert_grants_tx lookup new_key
  grants-Sat grants checked db' (h, eh, there, done, s') =
      subst (λ d. Sat (insert_grants_tx env id grants) d (λ _ db'. IsSound db')) done
        (insert_grants_tx-Sat env id (new_key crypto now token h in') grants _
          (rw (str_eq_refl id) refl) there (checked h eh) (subst IsSound (sym done) s'))

  create_key_tx-Sat :
      (grants : List Str)
      → Sat (create_key_tx crypto env now id token home in' grants) db (λ _ db'. IsSound db')
  unfolding create_key_tx
  create_key_tx-Sat grants = Sat-bind (check_grants_tx-Sat env home grants db) (λ _ db0 r0.
      Sat-bind
        (subst
          (λ d.
            Sat
              (uuid_tx (env.uuid home)
                (λ w. statement (insert_key id (new_key crypto now token w in'))))
              d (λ _ db'. Inserted db'))
          (sym r0.0) insert_tx-Sat)
        (λ _ db' r. grants-Sat grants r0.1 db' r))

create_granted-IsSound :
    (crypto : Crypto) (env : Env) (now : ℕ) (id token home : Str) (in' : NewKey) (db : Db)
    (fs : Faults)
    → bad_name in' ≡ false
    → bad_mode in' ≡ false
    → IsSound db
    → IsSound (create_granted crypto env now id token home in' db fs (key_grants env home in')).1
unfolding create_granted
create_granted-IsSound crypto env now id token home in' db fs name mode s =
    elim (ok-cases (key_grants env home in')) [
      | inr (e, bad) ↦ rw bad s
      | inl (grants, good) ↦ rw good (
          rw (reply-state 201 _) (
            transact-rule (λ _ db'. IsSound db') _ db fs (λ _. s)
              (create_key_tx-Sat crypto env now id token home in' name mode db s grants)))
    ]

pub create_key-IsSound :
    (crypto : Crypto) (env : Env) (now : ℕ) (id token path : Str) (raw : NewKey) (db : Db)
    (fs : Faults)
    → IsSound db
    → IsSound (create_key crypto env now id token path raw db fs).1
unfolding create_key
create_key-IsSound crypto env now id token path raw db fs s =
    if-rule (λ (r : Reply (Unit {0}) × Db). IsSound r.1) (bad_name (normalized raw)) (λ _. s)
      (λ name.
        if-rule (λ (r : Reply (Unit {0}) × Db). IsSound r.1) (bad_mode (normalized raw)) (λ _. s)
          (λ mode.
            create_granted-IsSound crypto env now id token (to_lower env.unicode path)
              (normalized raw) db fs name mode s))
