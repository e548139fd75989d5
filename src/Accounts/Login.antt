-- ===== src/Accounts/Login.antt =====
-- `Bootstrap`, `App.login`, `App.owner` and the logout of internal/server (security.go, app.go).
use kasane_mcp.Prelude.{
  ℕ, ◌+◌, Bool, false, ◌&&◌, ◌||◌, not, [], ◌∷◌, Option, none, some, Str, String, str_eq, ltb,
  length, ◌==◌, if◌then◌else◌, Result, ok, err, unavailable,
}
use kasane_mcp.GoText.{len, trim_space}
use kasane_mcp.Table.{Table, lookup, remove}
use kasane_mcp.Tx.{Tx, Faults, raise, statement, query, exec, ◌>>=◌, ◌>>◌, transact, run}
use kasane_mcp.Core.Validation.{is_empty}
use kasane_mcp.Store.Schema.{WorkspaceRow}
use kasane_mcp.Server.Http.{Reply, reply}
use kasane_mcp.Server.Access.{Identity}
use kasane_mcp.Server.Limiter.{Throttle, allow}
use kasane_mcp.Accounts.Schema.{
  Role, Owner, Session, Db, insert_owner, insert_session, fresh_sessions,
}

-- The hash of a token (`hashToken`) and bcrypt, whose `hash` may fail.
pub record Crypto : Type 0 where
  pub hash_token : Str → Str
  pub hash : Str → Option Str
  pub matches : Str → Str → Bool

-- strings.TrimRight(s, "/")
keep_slash : ℕ → Str → Str
keep_slash c [] = if c == b'/' then [] else c ∷ []
keep_slash c (d ∷ r) = c ∷ d ∷ r

trim_slashes : Str → Str
unfolding keep_slash
trim_slashes [] = []
trim_slashes (c ∷ s) = keep_slash c (trim_slashes s)

-- `validOrigin`, on the Origin header and a public URL.
unfoldable pub valid_origin : Str → Str → Bool
unfolding trim_slashes
valid_origin origin public_url = str_eq origin (trim_slashes public_url)

-- The checks of a new account's name and password.
unfoldable pub bad_account : Str → Str → Bool
bad_account username password =
    is_empty username || ltb 128 (len username) || ltb (len password) 12 || ltb 72 (len password)

-- UPDATE workspaces SET owner_username=$1 WHERE owner_username IS NULL
unfoldable pub adopt_row : Str → WorkspaceRow → WorkspaceRow
adopt_row username row = record row {
  owner_username = elim row.owner_username [ none ↦ some username | some o ↦ some o ];
}

unfoldable pub adopt : Str → Table WorkspaceRow → Table WorkspaceRow
adopt username [] = []
adopt username ((k, row) ∷ t) = (k, adopt_row username row) ∷ adopt username t

unfoldable pub bootstrap_tx : Str → Str → Tx Db (Unit {0})
bootstrap_tx username hash = do
  exec (λ (db : Db). db)
  count ← query (λ (db : Db). length db.owners)
  if ltb 0 count then raise unavailable else (do
    statement
        (insert_owner username (record { email = none; password_hash = hash; role = Role.admin }))
    exec (λ (db : Db). record db { workspaces = adopt username db.workspaces }))

unfoldable pub bootstrap_hashed : Str → Option Str → Db → Faults → Result (Unit {0}) × Db
unfolding bootstrap_tx
bootstrap_hashed username none db fs = (err unavailable, db)
bootstrap_hashed username (some hash) db fs = transact (bootstrap_tx username hash) db fs

-- `Bootstrap`
unfoldable pub bootstrap : Crypto → Str → Str → Db → Faults → Result (Unit {0}) × Db
bootstrap crypto username password db fs =
    if bad_account (trim_space username) password
    then (err unavailable, db)
    else bootstrap_hashed (trim_space username) (crypto.hash password) db fs

-- A request of the browser: its headers, its address by `clientIP`, its session cookie, and whether
-- its method is GET or HEAD.
pub record Browser : Type 0 where
  pub origin : Str
  pub address : Str
  pub cookie : Option Str
  pub safe : Bool
  pub csrf_header : Str

pub record Credentials : Type 0 where
  pub username : Str
  pub password : Str

-- What is random or read from the clock: the two tokens, now() and time.Now().
pub record Moment : Type 0 where
  pub token : Str
  pub csrf : Str
  pub now : ℕ
  pub clock : ℕ

unfoldable pub session_tx : Crypto → Moment → Str → Tx Db (Unit {0})
session_tx crypto m username = do
  exec (λ (db : Db). record db { sessions = fresh_sessions m.now db.sessions })
  statement (
      insert_session (crypto.hash_token m.token)
        (record { username = username; csrf_token = m.csrf; expires_at = m.clock + 86400000000 }))

-- Behind the SELECT of the account.
unfoldable pub verify_login :
    Crypto → Moment → Credentials → Result (Option Owner) → Db → Faults → Reply (Unit {0}) × Db
unfolding session_tx
verify_login crypto m in' (err e) db fs = (Reply.failed 503, db)
verify_login crypto m in' (ok none) db fs = (Reply.failed 401, db)
verify_login crypto m in' (ok (some owner)) db fs =
    if not (crypto.matches owner.password_hash in'.password)
    then (Reply.failed 401, db)
    else reply 200 (transact (session_tx crypto m in'.username) db fs)

unfoldable pub login_decoded :
    Crypto → Moment → Option Credentials → Db → Faults → Faults → Reply (Unit {0}) × Db
login_decoded crypto m none db select fs = (Reply.failed 400, db)
login_decoded crypto m (some in') db select fs =
    verify_login crypto m in' (run (query (λ (db : Db). lookup in'.username db.owners)) db select).0
      db fs

-- `App.login`: the answer, the tables, and the entries of the limiter. `body` is the decoded request;
-- `select` and `fs` are the failures of the SELECT and of the transaction.
unfoldable pub login :
    Crypto
    → Str
    → Moment
    → Browser
    → Option Credentials
    → Table Throttle
    → Db
    → Faults
    → Faults
    → (Reply (Unit {0}) × Db) × Table Throttle
unfolding login_decoded
login crypto public_url m b body entries db select fs =
    if not (valid_origin b.origin public_url)
    then ((Reply.failed 403, db), entries)
    else if not (allow b.address m.clock entries).0
    then ((Reply.failed 429, db), (allow b.address m.clock entries).1)
    else (login_decoded crypto m body db select fs, (allow b.address m.clock entries).1)

role_name : Role → String
role_name Role.admin = "admin"
role_name Role.user = "user"

-- The row of a session that has not expired, with its owner.
unfoldable pub session_owner : ℕ → Str → Db → Option (Session × Owner)
session_owner now token_hash db = elim (lookup token_hash db.sessions) [
  | none ↦ none
  | some s ↦ elim (lookup s.username db.owners) [
    | none ↦ none
    | some o ↦ if ltb now s.expires_at then some (s, o) else none
  ]
]

unfoldable pub browser_identity : Session × Owner → Identity
unfolding role_name
browser_identity (s, o) = record {
  username = s.username;
  csrf = s.csrf_token;
  workspace = [];
  scope = "";
  key_id = [];
  access_mode = "";
  role = role_name o.role;
  can_create_workspaces = false;
}

unfoldable pub check_csrf : Str → Browser → Result (Option (Session × Owner)) → Reply Identity
unfolding browser_identity
check_csrf public_url b (err e) = Reply.failed 503
check_csrf public_url b (ok none) = Reply.failed 401
check_csrf public_url b (ok (some row)) =
    if not b.safe
      && (not (valid_origin b.origin public_url) || not (str_eq row.0.csrf_token b.csrf_header))
    then Reply.failed 403
    else Reply.answered 200 (browser_identity row)

unfoldable pub owner_cookie : Crypto → Str → ℕ → Browser → Option Str → Db → Faults → Reply Identity
owner_cookie crypto public_url now b none db fs = Reply.failed 401
owner_cookie crypto public_url now b (some cookie) db fs =
    if ltb 128 (len cookie)
    then Reply.failed 401
    else check_csrf public_url b
        (run (query (session_owner now (crypto.hash_token cookie))) db fs).0

-- `App.owner`: a refusal, or the identity that is handed to the next handler.
unfoldable pub owner : Crypto → Str → ℕ → Browser → Db → Faults → Reply Identity
owner crypto public_url now b = owner_cookie crypto public_url now b b.cookie

-- POST /api/v1/logout, with the cookie that `App.owner` has accepted.
unfoldable pub logout : Crypto → Str → Db → Faults → Reply (Unit {0}) × Db
logout crypto cookie db fs = reply 200 (
    run (exec (λ (db : Db). record db { sessions = remove (crypto.hash_token cookie) db.sessions }))
      db fs)
