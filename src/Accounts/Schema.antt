-- ===== src/Accounts/Schema.antt =====
-- The tables of accounts, sessions, agent keys, the waitlist and invitations (schema.sql,
-- accounts.sql and invitations.sql of internal/store). Times are in microseconds.
use kasane_mcp.Prelude.{
  ℕ, Bool, false, ◌||◌, not, List, [], ◌∷◌, Option, none, some, Str, String, str_eq, ltb, is_some,
  if◌then◌else◌, Result, ok, err, conflict, unavailable,
}
use kasane_mcp.Table.{Table, lookup, find_row}
use kasane_mcp.Store.Schema.{WorkspaceRow}

pub data Role : Type 0 where
  admin user : Role

pub record Owner : Type 0 where
  pub email : Option Str
  pub password_hash : Str
  pub role : Role

pub record Session : Type 0 where
  pub username : Str
  pub csrf_token : Str
  pub expires_at : ℕ

pub record Invitation : Type 0 where
  pub email : Str
  pub token_hash : Str
  pub created_at : ℕ
  pub expires_at : ℕ
  pub accepted_at : Option ℕ
  pub revoked_at : Option ℕ

pub record WaitlistRow : Type 0 where
  pub name : Str
  pub created_at : ℕ

pub record KeyRow : Type 0 where
  pub workspace_id : Str
  pub name : Str
  pub prefix : Str
  pub token_hash : Str
  pub scope : String
  pub access_mode : String
  pub can_create_workspaces : Bool
  pub created_at : ℕ
  pub last_used_at : Option ℕ
  pub revoked_at : Option ℕ

-- Owners by username, sessions by the hash of their token, invitations and keys by ID, the waitlist
-- by email, and the pairs of a key and a workspace.
pub record Db : Type 0 where
  pub owners : Table Owner
  pub sessions : Table Session
  pub invitations : Table Invitation
  pub waitlist : Table WaitlistRow
  pub workspaces : Table WorkspaceRow
  pub keys : Table KeyRow
  pub grants : List (Str × Str)

-- email = $1
unfoldable pub has_email : Str → Owner → Bool
has_email email owner = elim owner.email [ none ↦ false | some e ↦ str_eq e email ]

-- UNIQUE(email) WHERE email IS NOT NULL
unfoldable pub email_taken : Option Str → Table Owner → Bool
unfolding has_email
email_taken none owners = false
email_taken (some email) owners = is_some (find_row (has_email email) owners)

-- INSERT INTO owners(…): a username or an email that is there is a unique violation.
unfoldable pub insert_owner : Str → Owner → Db → Result (Unit {0} × Db)
insert_owner username owner db =
    if is_some (lookup username db.owners) || email_taken owner.email db.owners
    then err conflict
    else ok (tt, record db { owners = (username, owner) ∷ db.owners })

-- INSERT INTO workspaces(id,name,owner_username) VALUES(…)
unfoldable pub insert_workspace : Str → WorkspaceRow → Db → Result (Unit {0} × Db)
insert_workspace id row db =
    if is_some (lookup id db.workspaces)
    then err unavailable
    else ok (tt, record db { workspaces = (id, row) ∷ db.workspaces })

-- INSERT INTO sessions(…): the username references an owner.
unfoldable pub insert_session : Str → Session → Db → Result (Unit {0} × Db)
insert_session token_hash session db =
    if is_some (lookup token_hash db.sessions) || not (is_some (lookup session.username db.owners))
    then err unavailable
    else ok (tt, record db { sessions = (token_hash, session) ∷ db.sessions })

-- DELETE FROM sessions WHERE expires_at < now()
unfoldable pub fresh_sessions : ℕ → Table Session → Table Session
fresh_sessions now [] = []
fresh_sessions now ((k, s) ∷ t) =
    let rest = fresh_sessions now t in if ltb s.expires_at now then rest else (k, s) ∷ rest
