-- ===== src/Accounts/Sound.antt =====
-- When the tables of accounts, sessions, invitations and keys are sound, and the writes that several
-- operations share.
pub mod Logins
pub mod Joins
pub mod AgentKeys
pub mod NewKeys
pub mod Places
use text.Mathlib.Text.{◌==◌ as text_eq}
use kasane_mcp.Prelude.{
  ℕ, suc, ◌+◌, ◌≤◌, ◌≡◌, refl, subst, Bool, true, false, ◌&&◌, ◌||◌, not, List, [], ◌∷◌, Option,
  none, some, Str, str_eq, str_eq_iff, arith, is_some, if◌then◌else◌, if-rule, Bool-cases,
  Option-cases, inl, inr, ltb, Result, ok, err,
}
use kasane_mcp.Table.{Table, lookup, count, find_row}
use kasane_mcp.Store.Schema.{WorkspaceRow}
use kasane_mcp.Store.Consistent.{Keyed}
use kasane_mcp.Accounts.Schema.{
  Role, Owner, Session, Invitation, KeyRow, Db, has_email, email_taken, insert_owner,
  insert_workspace, insert_session,
}
use kasane_mcp.Accounts.Keys.{owner_of, not_distinct, same_owner}
use kasane_mcp.Accounts.Every.{Every, Every-weaken, count-absent}

abbrev pub is_admin : Owner → Bool
is_admin o = elim o.role [ Role.admin ↦ true | Role.user ↦ false ]

abbrev pub is_user : Owner → Bool
is_user o = elim o.role [ Role.admin ↦ false | Role.user ↦ true ]

abbrev pub is_accepted : Invitation → Bool
is_accepted i = is_some i.accepted_at

abbrev pub accepted_for : Str → Invitation → Bool
accepted_for email i = str_eq i.email email && is_some i.accepted_at

-- An administrator has no email; a user has one, with an accepted invitation for it.
abbrev pub AdmittedAs : Table Invitation → Role → Option Str → Type 0
AdmittedAs invitations Role.admin email = email ≡ none
AdmittedAs invitations Role.user email =
    (e : Str) × (email ≡ some e) × (1 ≤ count (accepted_for e) invitations)

abbrev pub Admitted : Table Invitation → Owner → Type 0
Admitted invitations o = AdmittedAs invitations o.role o.email

abbrev pub sane_key : KeyRow → Bool
sane_key key =
    (text_eq key.scope "read" || text_eq key.scope "write")
    && (text_eq key.access_mode "single"
        || text_eq key.access_mode "selected"
        || text_eq key.access_mode "all")
    && (not key.can_create_workspaces
        || (text_eq key.scope "write" && not (text_eq key.access_mode "single")))

-- Its workspace is there, and only an agent that may write in more than one workspace creates one.
abbrev pub KeyOk : Table WorkspaceRow → KeyRow → Type 0
KeyOk workspaces key = (sane_key key ≡ true) × (is_some (lookup key.workspace_id workspaces) ≡ true)

-- A key whose own workspace is there, and a workspace with the same owner.
abbrev pub grant_ok : Str → Str → Db → Bool
grant_ok k w db = elim (lookup k db.keys) [
  | none ↦ false
  | some key ↦ is_some (lookup key.workspace_id db.workspaces) && same_owner w key.workspace_id db
]

abbrev pub GrantsOk : Db → List (Str × Str) → Type 0
GrantsOk db [] = Unit {0}
GrantsOk db ((k, w) ∷ gs) = (grant_ok k w db ≡ true) × GrantsOk db gs

pub record IsSound (db : Db) : Type 0 where
  pub admins : count is_admin db.owners ≤ 1
  pub accounts : count is_user db.owners ≤ count is_accepted db.invitations
  pub admitted : Every (Admitted db.invitations) db.owners
  pub emails : (e : Str) → count (has_email e) db.owners ≤ 1
  pub sessions : Every (λ (s : Session). is_some (lookup s.username db.owners) ≡ true) db.sessions
  pub keys : Every (KeyOk db.workspaces) db.keys
  pub grants : GrantsOk db db.grants
  pub keyed : Keyed db.keys

pub GrantsOk-weaken :
    (db db' : Db)
    → ((k w : Str) → grant_ok k w db ≡ true → grant_ok k w db' ≡ true)
    → (gs : List (Str × Str)) → GrantsOk db gs
    → GrantsOk db' gs
GrantsOk-weaken db db' h [] g = tt
GrantsOk-weaken db db' h ((k, w) ∷ gs) g = (h k w g.0, GrantsOk-weaken db db' h gs g.1)

-- Invitations that keep their email and stay accepted keep every account admitted.
pub AdmittedAs-weaken :
    (old new : Table Invitation)
    → ((e : Str) → count (accepted_for e) old ≤ count (accepted_for e) new)
    → (role : Role) (email : Option Str) → AdmittedAs old role email
    → AdmittedAs new role email
AdmittedAs-weaken old new h Role.admin email a = a
AdmittedAs-weaken old new h Role.user email a = (a.0, a.1, omega (arith, h a.0, a.2))

-- New invitations and marks on the old ones.
pub invitations-IsSound :
    (db : Db) (new : Table Invitation)
    → ((e : Str) → count (accepted_for e) db.invitations ≤ count (accepted_for e) new)
    → count is_accepted db.invitations ≤ count is_accepted new
    → IsSound db
    → IsSound (record db { invitations = new })
unfolding same_owner
invitations-IsSound db new h le s = record {
  admins = s.admins;
  accounts = omega (arith, s.accounts, le);
  admitted =
      Every-weaken (λ o. AdmittedAs-weaken db.invitations new h o.role o.email) db.owners
        s.admitted;
  emails = s.emails;
  sessions = s.sessions;
  keys = s.keys;
  grants = GrantsOk-weaken db (record db { invitations = new }) (λ k w g. g) db.grants s.grants;
  keyed = s.keyed;
}

-- Other sessions of accounts.
pub sessions-IsSound :
    (db : Db) (new : Table Session)
    → Every (λ (s : Session). is_some (lookup s.username db.owners) ≡ true) new
    → IsSound db
    → IsSound (record db { sessions = new })
unfolding same_owner
sessions-IsSound db new h s = record {
  admins = s.admins;
  accounts = s.accounts;
  admitted = s.admitted;
  emails = s.emails;
  sessions = h;
  keys = s.keys;
  grants = GrantsOk-weaken db (record db { sessions = new }) (λ k w g. g) db.grants s.grants;
  keyed = s.keyed;
}

-- Grants stay within one owner when workspaces stay there and keep having the same owner.
pub grant_ok-kept :
    (db db' : Db)
    → db'.keys ≡ db.keys
    → ((h : Str)
        → is_some (lookup h db.workspaces) ≡ true
        → is_some (lookup h db'.workspaces) ≡ true)
    → ((w h : Str)
        → is_some (lookup h db.workspaces) ≡ true
        → same_owner w h db ≡ true
        → same_owner w h db' ≡ true)
    → (k w : Str) → grant_ok k w db ≡ true
    → grant_ok k w db' ≡ true
grant_ok-kept db db' same there owned k w g = elim (Option-cases (lookup k db.keys)) [
  | inl none' ↦ ground arith
  | inr (key, found) ↦ ground (arith, there key.workspace_id, owned w key.workspace_id)
]

free-absent :
    (owners : Table Owner) (e m : Str)
    → email_taken (some m) owners ≡ false
    → str_eq m e ≡ true
    → count (has_email e) owners ≡ 0
unfolding email_taken
free-absent owners e m free same = elim (Option-cases (find_row (has_email m) owners)) [
  | inl none' ↦
      subst (λ (x : Str). count (has_email x) owners ≡ 0) ((str_eq_iff m e).0 same)
        (count-absent (has_email m) owners none')
  | inr (row, found) ↦ absurd (ground arith)
]

pub emails-insert :
    (owners : Table Owner) (username : Str) (owner : Owner)
    → email_taken owner.email owners ≡ false
    → ((e : Str) → count (has_email e) owners ≤ 1)
    → (e : Str) → count (has_email e) ((username, owner) ∷ owners) ≤ 1
unfolding count has_email
emails-insert owners username owner free h e = elim (Option-cases owner.email) [
  | inl none' ↦ rw none' (omega (arith, h e))
  | inr (m, found) ↦ elim (Bool-cases (str_eq m e)) [
    | inl same ↦
        let zero' =
          free-absent owners e m
            (subst (λ (o : Option Str). email_taken o owners ≡ false) found free) same in
        ground arith
    | inr other ↦ ground (arith, h e)
  ]
]
