-- ===== src/Accounts/Invitations.antt =====
-- The waitlist and the invitations: internal/server/invitations.go.
use kasane_mcp.Prelude.{
  ℕ, ◌+◌, Bool, false, ◌&&◌, ◌||◌, not, [], ◌∷◌, ◌++◌, Option, none, some, Str, str_eq, ltb,
  is_some, ◌==◌, if◌then◌else◌, Result, ok, err, invalid, conflict, not_found,
}
use kasane_mcp.GoText.{Unicode, len, trim_space, to_lower}
use kasane_mcp.Table.{Table, lookup, modify, modify_where, find_row}
use kasane_mcp.Tx.{Tx, Faults, pure, raise, statement, query, exec, ◌>>=◌, ◌>>◌, transact, run}
use kasane_mcp.Core.Ids.{valid_id}
use kasane_mcp.Core.Validation.{is_empty}
use kasane_mcp.Store.Schema.{Env, WorkspaceRow}
use kasane_mcp.Server.Http.{Reply, reply}
use kasane_mcp.Server.Limiter.{Throttle, allow}
use kasane_mcp.Accounts.Schema.{
  Role, Invitation, WaitlistRow, Db, has_email, insert_owner, insert_workspace,
}
use kasane_mcp.Accounts.Login.{Crypto, Browser, Moment, valid_origin, bad_account}
use kasane_mcp.Accounts.Keys.{uuid_tx}

unfoldable pub contains_at : Str → Bool
contains_at [] = false
contains_at (c ∷ s) = c == b'@' || contains_at s

address_is : Str → Option Str → Bool
address_is email none = false
address_is email (some address) = str_eq address email

-- `normalizeEmail`; `parse` is the address that mail.ParseAddress finds in a text, if any.
unfoldable pub normalize_email : Unicode → (Str → Option Str) → Str → Option Str
unfolding address_is
normalize_email u parse raw =
    let email = to_lower u (trim_space raw) in
    if len email == 0 || ltb 320 (len email)
    then none
    else if not (address_is email (parse email)) || not (contains_at email)
    then none
    else some email

-- "waitlist:" and "invitation:"
abbrev pub waitlist_prefix : Str
waitlist_prefix = b'w' ∷ b'a' ∷ b'i' ∷ b't' ∷ b'l' ∷ b'i' ∷ b's' ∷ b't' ∷ b':' ∷ []

abbrev pub invitation_prefix : Str
invitation_prefix = b'i' ∷ b'n' ∷ b'v' ∷ b'i' ∷ b't' ∷ b'a' ∷ b't' ∷ b'i' ∷ b'o' ∷ b'n' ∷ b':' ∷ []

pub record Applicant : Type 0 where
  pub email : Str
  pub name : Str

-- INSERT INTO waitlist(email,name) … ON CONFLICT (email) DO NOTHING
unfoldable pub put_waitlist : ℕ → Str → Str → Table WaitlistRow → Table WaitlistRow
put_waitlist now email name t =
    if is_some (lookup email t) then t else (email, record { name = name; created_at = now }) ∷ t

unfoldable pub join_named : Moment → Str → Option Str → Db → Faults → Reply (Unit {0}) × Db
join_named m name none db fs = (Reply.failed 400, db)
join_named m name (some email) db fs =
    if is_empty name || ltb 200 (len name)
    then (Reply.failed 400, db)
    else reply 202 (
        run (exec (λ (db : Db). record db { waitlist = put_waitlist m.now email name db.waitlist }))
          db fs)

unfoldable pub join_decoded :
    Unicode → (Str → Option Str) → Moment → Option Applicant → Db → Faults → Reply (Unit {0}) × Db
join_decoded u parse m none db fs = (Reply.failed 400, db)
join_decoded u parse m (some in') db fs =
    join_named m (trim_space in'.name) (normalize_email u parse in'.email) db fs

-- `App.joinWaitlist`
unfoldable pub join_waitlist :
    Unicode
    → (Str → Option Str)
    → Str
    → Moment
    → Browser
    → Option Applicant
    → Table Throttle
    → Db
    → Faults
    → (Reply (Unit {0}) × Db) × Table Throttle
join_waitlist u parse public_url m b body entries db fs =
    let limited = allow (waitlist_prefix ++ b.address) m.clock entries in
    if not (valid_origin b.origin public_url)
    then ((Reply.failed 403, db), entries)
    else if not limited.0
    then ((Reply.failed 429, db), limited.1)
    else (join_decoded u parse m body db fs, limited.1)

pub record Acceptance : Type 0 where
  pub token : Str
  pub username : Str
  pub password : Str

-- token_hash=$1 AND accepted_at IS NULL AND revoked_at IS NULL AND expires_at>now()
unfoldable pub open_invitation : ℕ → Str → Invitation → Bool
open_invitation now token_hash i =
    str_eq i.token_hash token_hash
    && not (is_some i.accepted_at)
    && not (is_some i.revoked_at)
    && ltb now i.expires_at

unfoldable pub with_hash : Str → Invitation → Bool
with_hash token_hash i = str_eq i.token_hash token_hash

unfoldable pub accepted : ℕ → Invitation → Invitation
accepted now i = record i { accepted_at = some now }

-- The workspace "Personal" of a new account.
unfoldable pub personal : ℕ → Str → WorkspaceRow
personal now username = record {
  name = b'P' ∷ b'e' ∷ b'r' ∷ b's' ∷ b'o' ∷ b'n' ∷ b'a' ∷ b'l' ∷ [];
  owner_username = some username;
  created_at = now;
}

-- The account, its workspace, and the mark on the invitation.
unfoldable pub join_tx : ℕ → Str → Str → Str → Str → Str → Tx Db (Unit {0})
join_tx now workspace token_hash email username hash = do
  statement (
      insert_owner username (record { email = some email; password_hash = hash; role = Role.user }))
  statement (insert_workspace workspace (personal now username))
  exec (λ (db : Db). record db {
    invitations = modify_where (with_hash token_hash) (accepted now) db.invitations;
  })

unfoldable pub accept_tx : ℕ → Str → Str → Str → Str → Tx Db (Unit {0})
accept_tx now workspace token_hash username hash = do
  found ← query (λ (db : Db). find_row (open_invitation now token_hash) db.invitations)
  elim found [
    | none ↦ raise invalid
    | some (id, i) ↦ join_tx now workspace token_hash i.email username hash
  ]

unfoldable pub accept_hashed :
    Crypto → Moment → Str → Acceptance → Option Str → Db → Faults → Reply (Unit {0}) × Db
accept_hashed crypto m workspace in' none db fs = (Reply.failed 503, db)
accept_hashed crypto m workspace in' (some hash) db fs = reply 201 (
    transact
      (accept_tx m.now workspace (crypto.hash_token in'.token) (trim_space in'.username) hash) db
      fs)

unfoldable pub accept_decoded :
    Crypto → Moment → Str → Option Acceptance → Db → Faults → Reply (Unit {0}) × Db
accept_decoded crypto m workspace none db fs = (Reply.failed 400, db)
accept_decoded crypto m workspace (some in') db fs =
    if ltb (len in'.token) 20 || ltb 128 (len in'.token)
    then (Reply.failed 400, db)
    else if bad_account (trim_space in'.username) in'.password
    then (Reply.failed 400, db)
    else accept_hashed crypto m workspace in' (crypto.hash in'.password) db fs

-- `App.acceptInvitation`; `workspace` is what gen_random_uuid() draws.
unfoldable pub accept :
    Crypto
    → Str
    → Moment
    → Str
    → Browser
    → Option Acceptance
    → Table Throttle
    → Db
    → Faults
    → (Reply (Unit {0}) × Db) × Table Throttle
accept crypto public_url m workspace b body entries db fs =
    let limited = allow (invitation_prefix ++ b.address) m.clock entries in
    if not (valid_origin b.origin public_url)
    then ((Reply.failed 403, db), entries)
    else if not limited.0
    then ((Reply.failed 429, db), limited.1)
    else (accept_decoded crypto m workspace body db fs, limited.1)

-- A new invitation, of seven days.
unfoldable pub new_invitation : ℕ → Str → Str → Invitation
new_invitation now email token_hash = record {
  email = email;
  token_hash = token_hash;
  created_at = now;
  expires_at = now + 604800000000;
  accepted_at = none;
  revoked_at = none;
}

-- INSERT INTO invitations(…): the token's hash is unique, and so is the ID that is drawn.
unfoldable pub insert_invitation : Str → Invitation → Db → Result (Unit {0} × Db)
insert_invitation id i db =
    if is_some (find_row (with_hash i.token_hash) db.invitations)
      || is_some (lookup id db.invitations)
    then err conflict
    else ok (tt, record db { invitations = (id, i) ∷ db.invitations })

unfoldable pub invite_tx : Crypto → Moment → Str → Str → Tx Db (Unit {0})
invite_tx crypto m id email = do
  registered ← query (λ (db : Db). is_some (find_row (has_email email) db.owners))
  if registered
      then raise conflict
      else statement (insert_invitation id (new_invitation m.now email (crypto.hash_token m.token)))

unfoldable pub invite_email :
    Crypto → Moment → Str → Option Str → Db → Faults → Reply (Unit {0}) × Db
invite_email crypto m id none db fs = (Reply.failed 400, db)
invite_email crypto m id (some email) db fs = reply 201 (run (invite_tx crypto m id email) db fs)

-- `App.invitations` on POST, for an administrator.
unfoldable pub invite :
    Crypto → Unicode → (Str → Option Str) → Moment → Str → Str → Db → Faults → Reply (Unit {0}) × Db
invite crypto u parse m id raw db fs = invite_email crypto m id (normalize_email u parse raw) db fs

-- SET revoked_at=COALESCE(revoked_at,now())
unfoldable pub revoked : ℕ → Invitation → Invitation
revoked now i = record i { revoked_at = elim i.revoked_at [ none ↦ some now | some t ↦ some t ] }

unfoldable pub revoke_rows : ℕ → Str → Db → Bool × Db
revoke_rows now id db = (
  is_some (lookup id db.invitations),
  record db { invitations = modify id (revoked now) db.invitations },
)

unfoldable pub revoke_tx : ℕ → Str → Tx Db (Unit {0})
revoke_tx now id = do
  affected ← statement (λ (db : Db). ok (revoke_rows now id db))
  if affected then pure tt else raise not_found

-- `App.invitations` on DELETE.
unfoldable pub revoke : Env → ℕ → Str → Db → Faults → Reply (Unit {0}) × Db
revoke env now id db fs =
    if not (valid_id id)
    then (Reply.failed 400, db)
    else reply 200 (run (uuid_tx (env.uuid id) (revoke_tx now)) db fs)
