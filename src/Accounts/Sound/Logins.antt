-- ===== src/Accounts/Sound/Logins.antt =====
-- `Bootstrap`, `App.login` and the logout of internal/server on sound tables.
use mathlib.Core.Option
use kasane_mcp.Prelude.{
  ◌+◌, ◌≡◌, refl, subst, true, false, not, [], ◌∷◌, Option, none, some, Str, str_eq_iff, arith,
  is_some, if-rule, Bool-cases, Option-cases, inl, inr, ltb, Result, ok, err, unavailable, length,
}
use kasane_mcp.Table.{Table, lookup, count}
use kasane_mcp.Tx.{Faults}
use kasane_mcp.Tx.Rules.{
  Sat, Sat-raise, Sat-if, Sat-step, Sat-query, Sat-exec, Sat-exec_last, Sat-statement,
  transact-rule, run-rule,
}
use kasane_mcp.GoText.{trim_space}
use kasane_mcp.Store.Schema.{WorkspaceRow}
use kasane_mcp.Server.Http.{Reply}
use kasane_mcp.Server.Limiter.{Throttle, allow}
use kasane_mcp.Accounts.Schema.{
  Role, Owner, Session, Db, email_taken, insert_owner, insert_session, fresh_sessions,
}
use kasane_mcp.Accounts.Login.{
  adopt_row, Crypto, Browser, Credentials, Moment, adopt, valid_origin, bad_account, bootstrap_tx,
  bootstrap_hashed, bootstrap, session_tx, verify_login, login_decoded, login, logout,
}
use kasane_mcp.Accounts.Keys.{not_distinct, owned_alike, same_owner}
use kasane_mcp.Accounts.Replies.{reply-state}
use kasane_mcp.Accounts.Every.{Every-weaken, Every-fresh, Every-remove, count-le-length}
use kasane_mcp.Accounts.Sound.{
  IsSound, is_admin, sessions-IsSound, emails-insert, grant_ok-kept, GrantsOk-weaken,
}

-- What an insert that returned has found, and done.
pub insert_owner-ok :
    (username : Str) (owner : Owner) (db db' : Db)
    → insert_owner username owner db ≡ ok (tt, db')
    → (email_taken owner.email db.owners ≡ false)
      × (record db { owners = (username, owner) ∷ db.owners } ≡ db')
unfolding insert_owner
insert_owner-ok username owner db db' h = ground arith

-- An account that is one more keeps every session's account.
pub account-insert :
    (owners : Table Owner) (u : Str) (o : Owner) (s : Session)
    → is_some (lookup s.username owners) ≡ true
    → is_some (lookup s.username ((u, o) ∷ owners)) ≡ true
unfolding lookup
account-insert owners u o s h = ground arith

lookup-adopt :
    (u k : Str) (t : Table WorkspaceRow)
    → lookup k (adopt u t) ≡ Option.map (adopt_row u) (lookup k t)
unfolding lookup adopt
lookup-adopt u k [] = refl
lookup-adopt u k ((j, row) ∷ t) = ground (arith, lookup-adopt u k t)

adopt-not_distinct :
    (u : Str) (a b : WorkspaceRow)
    → not_distinct a.owner_username b.owner_username ≡ true
    → not_distinct (adopt_row u a).owner_username (adopt_row u b).owner_username ≡ true
unfolding not_distinct adopt_row
adopt-not_distinct u a b h = elim (Option-cases a.owner_username) [
  | inl ea ↦ elim (Option-cases b.owner_username) [
    | inl eb ↦ rw (ea, eb) ((str_eq_iff u u).1 refl)
    | inr (y, eb) ↦ absurd (ground arith)
  ]
  | inr (x, ea) ↦ elim (Option-cases b.owner_username) [
    | inl eb ↦ absurd (ground arith)
    | inr (y, eb) ↦ ground arith
  ]
]

adopt-owned_alike :
    (u : Str) (a b : Option WorkspaceRow)
    → is_some b ≡ true
    → owned_alike a b ≡ true
    → owned_alike (Option.map (adopt_row u) a) (Option.map (adopt_row u) b) ≡ true
adopt-owned_alike u none b there h = h
adopt-owned_alike u (some a) none there h = cc
adopt-owned_alike u (some a) (some b) there h = adopt-not_distinct u a b h

module _ (u : Str) (db : Db) (owners : Table Owner) where
  adopt-there :
      (h : Str)
      → is_some (lookup h db.workspaces) ≡ true
      → is_some (lookup h (adopt u db.workspaces)) ≡ true
  adopt-there h there = rw (lookup-adopt u h db.workspaces) (ground arith)

  adopt-same_owner :
      (w h : Str)
      → is_some (lookup h db.workspaces) ≡ true
      → same_owner w h db ≡ true
      → same_owner w h (record db { owners = owners; workspaces = adopt u db.workspaces }) ≡ true
  unfolding same_owner
  adopt-same_owner w h there same =
      rw (lookup-adopt u w db.workspaces, lookup-adopt u h db.workspaces)
        (adopt-owned_alike u (lookup w db.workspaces) (lookup h db.workspaces) there same)

-- The first administrator, to whom the workspaces without an owner go.
pub bootstrapped-IsSound :
    (u hash : Str) (db : Db)
    → length db.owners ≡ 0
    → email_taken none db.owners ≡ false
    → IsSound db
    → IsSound (record db {
      owners = (u, record { email = none; password_hash = hash; role = Role.admin }) ∷ db.owners;
      workspaces = adopt u db.workspaces;
    })
unfolding count
bootstrapped-IsSound u hash db empty free s = record {
  admins = omega (arith, count-le-length is_admin db.owners, empty);
  accounts = omega (arith, s.accounts);
  admitted = (refl, s.admitted);
  emails =
      emails-insert db.owners u (record { email = none; password_hash = hash; role = Role.admin })
        free s.emails;
  sessions = Every-weaken (account-insert db.owners u _) db.sessions s.sessions;
  keys =
      Every-weaken (λ key ok. (ok.0, adopt-there u db db.owners key.workspace_id ok.1)) db.keys
        s.keys;
  grants =
      GrantsOk-weaken db _
        (grant_ok-kept db _ refl (adopt-there u db db.owners) (adopt-same_owner u db _)) db.grants
        s.grants;
  keyed = s.keyed;
}

bootstrap_tx-Sat :
    (u hash : Str) (db : Db) → IsSound db → Sat (bootstrap_tx u hash) db (λ _ db'. IsSound db')
unfolding bootstrap_tx
bootstrap_tx-Sat u hash db s =
    Sat-exec (λ (db : Db). db) _ db
      (Sat-query (λ (db : Db). length db.owners) _ db
        (Sat-if (ltb 0 (length db.owners)) db (λ _. Sat-raise unavailable db)
          (λ none'.
            Sat-step
              (insert_owner u (record { email = none; password_hash = hash; role = Role.admin })) _
              db
              (λ _ db' eq.
                let done =
                  insert_owner-ok u
                    (record { email = none; password_hash = hash; role = Role.admin }) db db' eq in
                Sat-exec_last _ db' (
                  subst (λ d. IsSound (record d { workspaces = adopt u d.workspaces })) done.1
                    (bootstrapped-IsSound u hash db (ground arith) done.0 s))))))

bootstrap_hashed-IsSound :
    (u : Str) (hash : Option Str) (db : Db) (fs : Faults)
    → IsSound db
    → IsSound (bootstrap_hashed u hash db fs).1
unfolding bootstrap_hashed
bootstrap_hashed-IsSound u none db fs s = s
bootstrap_hashed-IsSound u (some hash) db fs s =
    transact-rule (λ _ db'. IsSound db') (bootstrap_tx u hash) db fs (λ _. s)
      (bootstrap_tx-Sat u hash db s)

pub bootstrap-IsSound :
    (crypto : Crypto) (username password : Str) (db : Db) (fs : Faults)
    → IsSound db
    → IsSound (bootstrap crypto username password db fs).1
unfolding bootstrap
bootstrap-IsSound crypto username password db fs s =
    if-rule (λ (r : Result (Unit {0}) × Db). IsSound r.1)
      (bad_account (trim_space username) password) (λ _. s)
      (λ _. bootstrap_hashed-IsSound (trim_space username) (crypto.hash password) db fs s)

session_tx-Sat :
    (crypto : Crypto) (m : Moment) (u : Str) (db : Db)
    → IsSound db
    → Sat (session_tx crypto m u) db (λ _ db'. IsSound db')
unfolding session_tx insert_session
session_tx-Sat crypto m u db s =
    Sat-exec (λ (db : Db). record db { sessions = fresh_sessions m.now db.sessions }) _ db
      (Sat-statement _ _ (λ _ db' eq. elim (Bool-cases (is_some (lookup u db.owners))) [
        | inl there ↦ subst IsSound (ground arith) (
            sessions-IsSound db
              ((
                crypto.hash_token m.token,
                record { username = u; csrf_token = m.csrf; expires_at = m.clock + 86400000000 },
              )
                ∷ fresh_sessions m.now db.sessions)
              (there, Every-fresh _ m.now db.sessions s.sessions) s)
        | inr none' ↦ absurd (ground arith)
      ]))

verify_login-IsSound :
    (crypto : Crypto) (m : Moment) (in' : Credentials) (r : Result (Option Owner)) (db : Db)
    (fs : Faults)
    → IsSound db
    → IsSound (verify_login crypto m in' r db fs).1
unfolding verify_login
verify_login-IsSound crypto m in' (err e) db fs s = s
verify_login-IsSound crypto m in' (ok none) db fs s = s
verify_login-IsSound crypto m in' (ok (some owner)) db fs s =
    if-rule (λ (r : Reply (Unit {0}) × Db). IsSound r.1)
      (not (crypto.matches owner.password_hash in'.password)) (λ _. s)
      (λ _. rw (reply-state 200 _) (
        transact-rule (λ _ db'. IsSound db') _ db fs (λ _. s)
          (session_tx-Sat crypto m in'.username db s)))

login_decoded-IsSound :
    (crypto : Crypto) (m : Moment) (body : Option Credentials) (db : Db) (select fs : Faults)
    → IsSound db
    → IsSound (login_decoded crypto m body db select fs).1
unfolding login_decoded
login_decoded-IsSound crypto m none db select fs s = s
login_decoded-IsSound crypto m (some in') db select fs s =
    verify_login-IsSound crypto m in' _ db fs s

pub login-IsSound :
    (crypto : Crypto) (public_url : Str) (m : Moment) (b : Browser) (body : Option Credentials)
    (entries : Table Throttle) (db : Db) (select fs : Faults)
    → IsSound db
    → IsSound (login crypto public_url m b body entries db select fs).0.1
unfolding login
login-IsSound crypto public_url m b body entries db select fs s =
    if-rule (λ (r : (Reply (Unit {0}) × Db) × Table Throttle). IsSound r.0.1)
      (not (valid_origin b.origin public_url)) (λ _. s)
      (λ _.
        if-rule (λ (r : (Reply (Unit {0}) × Db) × Table Throttle). IsSound r.0.1)
          (not (allow b.address m.clock entries).0) (λ _. s)
          (λ _. login_decoded-IsSound crypto m body db select fs s))

pub logout-IsSound :
    (crypto : Crypto) (cookie : Str) (db : Db) (fs : Faults)
    → IsSound db
    → IsSound (logout crypto cookie db fs).1
unfolding logout
logout-IsSound crypto cookie db fs s = rw (reply-state 200 _) (
    run-rule (λ _ db'. IsSound db') _ db fs (λ _. s)
      (Sat-exec_last _ db (sessions-IsSound db _ (Every-remove _ _ db.sessions s.sessions) s)))
