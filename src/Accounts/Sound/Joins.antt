-- ===== src/Accounts/Sound/Joins.antt =====
-- The waitlist and the invitations, internal/server/invitations.go, on sound tables.
use kasane_mcp.Prelude.{
  ℕ, suc, ◌≤◌, ◌≡◌, refl, sym, subst, Bool, true, false, ◌||◌, not, ◌∷◌, Option, none, some, Str,
  str_eq, str_eq_iff, str_eq_refl, arith, is_some, if◌then◌else◌, if-rule, Bool-cases, inl, inr,
  ltb, ok, conflict, invalid, not_found,
}
use kasane_mcp.Table.{Table, lookup, count, modify, modify_where, find_row}
use kasane_mcp.Table.Laws.{find_row-some}
use kasane_mcp.Tx.{Faults}
use kasane_mcp.Tx.Rules.{
  Sat, Sat-pure, Sat-raise, Sat-if, Sat-option, Sat-step, Sat-query, Sat-exec_last, Sat-statement,
  transact-rule, run-rule,
}
use kasane_mcp.GoText.{Unicode, trim_space, len}
use kasane_mcp.Core.Ids.{valid_id}
use kasane_mcp.Core.Validation.{is_empty}
use kasane_mcp.Store.Schema.{Env, WorkspaceRow}
use kasane_mcp.Server.Http.{Reply}
use kasane_mcp.Server.Limiter.{Throttle}
use kasane_mcp.Accounts.Schema.{
  Role, Owner, Invitation, WaitlistRow, Db, has_email, email_taken, insert_owner, insert_workspace,
}
use kasane_mcp.Accounts.Login.{Crypto, Browser, Moment, valid_origin, bad_account}
use kasane_mcp.Accounts.Keys.{owned_alike, same_owner}
use kasane_mcp.Accounts.Invitations.{
  Applicant, join_named, join_decoded, join_waitlist, Acceptance, open_invitation, with_hash,
  accepted, personal, join_tx, accept_tx, accept_hashed, accept_decoded, accept, insert_invitation,
  invite_tx, invite_email, invite, revoked, revoke_rows, revoke_tx, revoke,
}
use kasane_mcp.Accounts.Every.{
  Every-weaken, count-modify_where-ge, count-modify_where-lt, count-modify-ge,
}
use kasane_mcp.Accounts.Sound.{
  IsSound, is_accepted, accepted_for, AdmittedAs-weaken, emails-insert, invitations-IsSound,
  grant_ok-kept, GrantsOk-weaken,
}
use kasane_mcp.Accounts.Replies.{reply-state}
use kasane_mcp.Accounts.Sound.Logins.{insert_owner-ok, account-insert}
use kasane_mcp.Accounts.Sound.AgentKeys.{uuid_tx-Sat}

waitlist-IsSound :
    (db : Db) (t : Table WaitlistRow) → IsSound db → IsSound (record db { waitlist = t })
unfolding same_owner
waitlist-IsSound db t s = record {
  admins = s.admins;
  accounts = s.accounts;
  admitted = s.admitted;
  emails = s.emails;
  sessions = s.sessions;
  keys = s.keys;
  grants = GrantsOk-weaken db (record db { waitlist = t }) (λ k w g. g) db.grants s.grants;
  keyed = s.keyed;
}

join_named-IsSound :
    (m : Moment) (name : Str) (email : Option Str) (db : Db) (fs : Faults)
    → IsSound db
    → IsSound (join_named m name email db fs).1
unfolding join_named
join_named-IsSound m name none db fs s = s
join_named-IsSound m name (some email) db fs s =
    if-rule (λ (r : Reply (Unit {0}) × Db). IsSound r.1) (is_empty name || ltb 200 (len name))
      (λ _. s)
      (λ _. rw (reply-state 202 _) (
        run-rule (λ _ db'. IsSound db') _ db fs (λ _. s)
          (Sat-exec_last _ db (waitlist-IsSound db _ s))))

join_decoded-IsSound :
    (u : Unicode) (parse : Str → Option Str) (m : Moment) (body : Option Applicant) (db : Db)
    (fs : Faults)
    → IsSound db
    → IsSound (join_decoded u parse m body db fs).1
unfolding join_decoded
join_decoded-IsSound u parse m none db fs s = s
join_decoded-IsSound u parse m (some in') db fs s = join_named-IsSound m _ _ db fs s

-- What a public handler answers, with the tables and the entries of the limiter.
abbrev Answer : Type 0
Answer = (Reply (Unit {0}) × Db) × Table Throttle

abbrev SoundAnswer : Answer → Type 0
SoundAnswer r = IsSound r.0.1

-- Behind the checks of the origin and of the limiter.
limited-IsSound :
    (origin allowed : Bool) (old entries : Table Throttle) (db : Db) (r : Reply (Unit {0}) × Db)
    → IsSound db
    → IsSound r.1
    → SoundAnswer (
        if not origin
        then ((Reply.failed 403, db), old)
        else if not allowed
        then ((Reply.failed 429, db), entries)
        else (r, entries))
limited-IsSound true true old entries db r s s' = s'
limited-IsSound true false old entries db r s s' = s
limited-IsSound false allowed old entries db r s s' = s

pub join_waitlist-IsSound :
    (u : Unicode) (parse : Str → Option Str) (public_url : Str) (m : Moment) (b : Browser)
    (body : Option Applicant) (entries : Table Throttle) (db : Db) (fs : Faults)
    → IsSound db
    → IsSound (join_waitlist u parse public_url m b body entries db fs).0.1
unfolding join_waitlist
join_waitlist-IsSound u parse public_url m b body entries db fs s =
    limited-IsSound (valid_origin b.origin public_url) _ entries _ db
      (join_decoded u parse m body db fs) s (join_decoded-IsSound u parse m body db fs s)

-- Marks on invitations.
revoked-IsSound :
    (now : ℕ) (id : Str) (db : Db)
    → IsSound db
    → IsSound (record db { invitations = modify id (revoked now) db.invitations })
unfolding revoked
revoked-IsSound now id db s =
    invitations-IsSound db (modify id (revoked now) db.invitations)
      (λ e. count-modify-ge (accepted_for e) id (revoked now) (λ v h. h) db.invitations)
      (count-modify-ge is_accepted id (revoked now) (λ v h. h) db.invitations) s

revoke_tx-Sat :
    (now : ℕ) (id : Str) (db : Db) → IsSound db → Sat (revoke_tx now id) db (λ _ db'. IsSound db')
unfolding revoke_tx revoke_rows
revoke_tx-Sat now id db s =
    Sat-step (λ (db : Db). ok (revoke_rows now id db)) _ db
      (λ affected db' eq.
        Sat-if affected db'
          (λ _. Sat-pure tt db' (subst IsSound (ground arith) (revoked-IsSound now id db s)))
          (λ _. Sat-raise not_found db'))

pub revoke-IsSound :
    (env : Env) (now : ℕ) (id : Str) (db : Db) (fs : Faults)
    → IsSound db
    → IsSound (revoke env now id db fs).1
unfolding revoke
revoke-IsSound env now id db fs s =
    if-rule (λ (r : Reply (Unit {0}) × Db). IsSound r.1) (not (valid_id id)) (λ _. s)
      (λ _. rw (reply-state 200 _) (
        run-rule (λ _ db'. IsSound db') _ db fs (λ _. s)
          (uuid_tx-Sat (env.uuid id) _ db (λ i _. revoke_tx-Sat now i db s))))

-- A new invitation.
insert_invitation-IsSound :
    (id : Str) (i : Invitation) (db db' : Db)
    → insert_invitation id i db ≡ ok (tt, db')
    → IsSound db
    → IsSound db'
unfolding insert_invitation count
insert_invitation-IsSound id i db db' eq s =
    subst IsSound (ground arith)
      (invitations-IsSound db ((id, i) ∷ db.invitations) (λ e. omega arith) (omega arith) s)

invite_email-IsSound :
    (crypto : Crypto) (m : Moment) (id : Str) (email : Option Str) (db : Db) (fs : Faults)
    → IsSound db
    → IsSound (invite_email crypto m id email db fs).1
unfolding invite_email invite_tx
invite_email-IsSound crypto m id none db fs s = s
invite_email-IsSound crypto m id (some email) db fs s = rw (reply-state 201 _) (
    run-rule (λ _ db'. IsSound db') _ db fs (λ _. s)
      (Sat-query (λ (db : Db). is_some (find_row (has_email email) db.owners)) _ db
        (Sat-if (is_some (find_row (has_email email) db.owners)) db (λ _. Sat-raise conflict db)
          (λ _. Sat-statement _ db (λ _ db' eq. insert_invitation-IsSound id _ db db' eq s)))))

pub invite-IsSound :
    (crypto : Crypto) (u : Unicode) (parse : Str → Option Str) (m : Moment) (id raw : Str) (db : Db)
    (fs : Faults)
    → IsSound db
    → IsSound (invite crypto u parse m id raw db fs).1
unfolding invite
invite-IsSound crypto u parse m id raw db fs s = invite_email-IsSound crypto m id _ db fs s

-- A workspace that is one more keeps the owners of the others.
module _ (w : Str) (row : WorkspaceRow) (db : Db)
    (absent : is_some (lookup w db.workspaces) ≡ false) where
  pub more-there :
      (h : Str)
      → is_some (lookup h db.workspaces) ≡ true
      → is_some (lookup h ((w, row) ∷ db.workspaces)) ≡ true
  unfolding lookup
  more-there h there = ground arith

  pub more-lookup :
      (h : Str)
      → is_some (lookup h db.workspaces) ≡ true
      → lookup h ((w, row) ∷ db.workspaces) ≡ lookup h db.workspaces
  unfolding lookup
  more-lookup h there = elim (Bool-cases (str_eq w h)) [
    | inl same ↦ absurd (
        cc (
          subst (λ (x : Str). is_some (lookup x db.workspaces) ≡ false) ((str_eq_iff w h).0 same)
              absent,
          there,
        ))
    | inr other ↦ rw other
  ]

  alike-there : (a b : Option WorkspaceRow) → owned_alike a b ≡ true → is_some a ≡ true
  alike-there none b h = cc
  alike-there (some a) b h = refl

  pub more-same_owner :
      (owners : Table Owner) (invitations : Table Invitation) (v h : Str)
      → is_some (lookup h db.workspaces) ≡ true
      → same_owner v h db ≡ true
      → same_owner v h (record db {
        owners = owners;
        workspaces = (w, row) ∷ db.workspaces;
        invitations = invitations;
      })
        ≡ true
  unfolding same_owner
  more-same_owner owners invitations v h there same =
      rw (more-lookup v (alike-there _ _ same), more-lookup h there) same

-- A user who has accepted an invitation, with a workspace.
module _ (now : ℕ) (w th u hash : Str) (db : Db) (s : IsSound db) (id : Str) (i : Invitation)
    (found : find_row (open_invitation now th) db.invitations ≡ some (id, i)) where
  abbrev marked : Table Invitation
  marked = modify_where (with_hash th) (accepted now) db.invitations

  abbrev account : Owner
  account = record { email = some i.email; password_hash = hash; role = Role.user }

  opened : open_invitation now th i ≡ true
  opened = find_row-some (open_invitation now th) db.invitations id i found

  more-accepted :
      (p : Invitation → Bool)
      → ((v : Invitation) → p v ≡ true → p (accepted now v) ≡ true)
      → p i ≡ false
      → p (accepted now i) ≡ true
      → suc (count p db.invitations) ≤ count p marked
  unfolding open_invitation with_hash
  more-accepted p keeps before after =
      count-modify_where-lt p (with_hash th) (open_invitation now th) (accepted now) keeps
        db.invitations id i found (ground (arith, opened)) before after

  unaccepted : is_some i.accepted_at ≡ false
  unfolding open_invitation
  unaccepted = ground (arith, opened)

  still_accepted :
      (e : Str) (v : Invitation) → accepted_for e v ≡ true → accepted_for e (accepted now v) ≡ true
  unfolding accepted
  still_accepted e v h = ground arith

  joined-IsSound :
      email_taken (some i.email) db.owners ≡ false
      → is_some (lookup w db.workspaces) ≡ false
      → IsSound (record db {
        owners = (u, account) ∷ db.owners;
        workspaces = (w, personal now u) ∷ db.workspaces;
        invitations = marked;
      })
  unfolding count accepted
  joined-IsSound free absent = record {
    admins = omega (arith, s.admins);
    accounts = omega (arith, s.accounts, more-accepted is_accepted (λ v h. refl) unaccepted refl);
    admitted = (
      (
        i.email,
        refl,
        omega (
          arith,
          more-accepted (accepted_for i.email) (λ v h. still_accepted i.email v h)
              (ground (arith, unaccepted)) (rw (str_eq_refl i.email) refl),
        ),
      ),
      Every-weaken
          (λ o.
            AdmittedAs-weaken db.invitations marked
              (λ e.
                count-modify_where-ge (accepted_for e) (with_hash th) (accepted now)
                  (λ v h. still_accepted e v h) db.invitations)
              o.role o.email)
          db.owners s.admitted,
    );
    emails = emails-insert db.owners u account free s.emails;
    sessions = Every-weaken (account-insert db.owners u account) db.sessions s.sessions;
    keys =
        Every-weaken
          (λ key good. (good.0, more-there w (personal now u) db absent key.workspace_id good.1))
          db.keys s.keys;
    grants =
        GrantsOk-weaken db _
          (grant_ok-kept db _ refl (more-there w (personal now u) db absent)
            (more-same_owner w (personal now u) db absent _ _))
          db.grants s.grants;
    keyed = s.keyed;
  }

pub insert_workspace-ok :
    (w : Str) (row : WorkspaceRow) (db db' : Db)
    → insert_workspace w row db ≡ ok (tt, db')
    → (is_some (lookup w db.workspaces) ≡ false)
      × (record db { workspaces = (w, row) ∷ db.workspaces } ≡ db')
unfolding insert_workspace
insert_workspace-ok w row db db' h = ground arith

join_tx-Sat :
    (now : ℕ) (w th u hash : Str) (db : Db) (id : Str) (i : Invitation)
    → find_row (open_invitation now th) db.invitations ≡ some (id, i)
    → IsSound db
    → Sat (join_tx now w th i.email u hash) db (λ _ db'. IsSound db')
unfolding join_tx
join_tx-Sat now w th u hash db id i found s =
    let o : Owner = record { email = some i.email; password_hash = hash; role = Role.user } in
    Sat-step (insert_owner u o) _ db (λ _ db1 eq1.
      let done1 = insert_owner-ok u o db db1 eq1 in
      Sat-step (insert_workspace w (personal now u)) _ db1 (λ _ db2 eq2.
        let done2 = insert_workspace-ok w (personal now u) db1 db2 eq2 in
        Sat-exec_last _ db2 (
          subst
            (λ d.
              IsSound (record d {
                invitations = modify_where (with_hash th) (accepted now) d.invitations;
              }))
            done2.1
            (subst
              (λ d. IsSound (record d {
                workspaces = (w, personal now u) ∷ d.workspaces;
                invitations = modify_where (with_hash th) (accepted now) d.invitations;
              }))
              done1.1
              (joined-IsSound now w th u hash db s id i found done1.0
                (subst (λ d. is_some (lookup w d.workspaces) ≡ false) (sym done1.1) done2.0))))))

accept_tx-Sat :
    (now : ℕ) (w th u hash : Str) (db : Db)
    → IsSound db
    → Sat (accept_tx now w th u hash) db (λ _ db'. IsSound db')
unfolding accept_tx
accept_tx-Sat now w th u hash db s =
    Sat-query (λ (db : Db). find_row (open_invitation now th) db.invitations) _ db
      (Sat-option (find_row (open_invitation now th) db.invitations) db (λ _. Sat-raise invalid db)
        (λ row found. join_tx-Sat now w th u hash db row.0 row.1 found s))

accept_hashed-IsSound :
    (crypto : Crypto) (m : Moment) (w : Str) (in' : Acceptance) (hash : Option Str) (db : Db)
    (fs : Faults)
    → IsSound db
    → IsSound (accept_hashed crypto m w in' hash db fs).1
unfolding accept_hashed
accept_hashed-IsSound crypto m w in' none db fs s = s
accept_hashed-IsSound crypto m w in' (some hash) db fs s =
    rw (reply-state 201 _)
      (transact-rule (λ _ db'. IsSound db') _ db fs (λ _. s) (accept_tx-Sat _ _ _ _ _ db s))

accept_decoded-IsSound :
    (crypto : Crypto) (m : Moment) (w : Str) (body : Option Acceptance) (db : Db) (fs : Faults)
    → IsSound db
    → IsSound (accept_decoded crypto m w body db fs).1
unfolding accept_decoded
accept_decoded-IsSound crypto m w none db fs s = s
accept_decoded-IsSound crypto m w (some in') db fs s =
    if-rule (λ (r : Reply (Unit {0}) × Db). IsSound r.1)
      (ltb (len in'.token) 20 || ltb 128 (len in'.token)) (λ _. s)
      (λ _.
        if-rule (λ (r : Reply (Unit {0}) × Db). IsSound r.1)
          (bad_account (trim_space in'.username) in'.password) (λ _. s)
          (λ _. accept_hashed-IsSound crypto m w in' _ db fs s))

pub accept-IsSound :
    (crypto : Crypto) (public_url : Str) (m : Moment) (w : Str) (b : Browser)
    (body : Option Acceptance) (entries : Table Throttle) (db : Db) (fs : Faults)
    → IsSound db
    → IsSound (accept crypto public_url m w b body entries db fs).0.1
unfolding accept
accept-IsSound crypto public_url m w b body entries db fs s =
    limited-IsSound (valid_origin b.origin public_url) _ entries _ db
      (accept_decoded crypto m w body db fs) s (accept_decoded-IsSound crypto m w body db fs s)
