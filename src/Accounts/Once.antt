-- ===== src/Accounts/Once.antt =====
-- Tokens that are spent: an accepted invitation (internal/server/invitations.go) and a revoked agent
-- key (internal/server/security.go).
use kasane_mcp.Prelude.{
  ℕ, ◌≡◌, refl, sym, subst, ◌||◌, not, ◌∷◌, ◌++◌, [], Option, none, some, Str, arith, if-rule,
  Bool-cases, inl, inr, ltb, invalid,
}
use kasane_mcp.Table.{Table, modify_where, find_row}
use kasane_mcp.Tx.{Faults}
use kasane_mcp.Tx.Rules.{
  Sat, Sat-weaken, Sat-raise, Sat-option, Sat-query, Sat-step, Sat-exec_last, transact-rule,
  transact-ok,
}
use kasane_mcp.GoText.{len, trim_space}
use kasane_mcp.Server.Http.{Reply, reply, failure_status}
use kasane_mcp.Server.Limiter.{Throttle, allow}
use kasane_mcp.Accounts.Schema.{Role, Invitation, Db, insert_owner, insert_workspace}
use kasane_mcp.Accounts.Login.{Crypto, Browser, Moment, valid_origin, bad_account}
use kasane_mcp.Accounts.Invitations.{
  invitation_prefix, Acceptance, open_invitation, with_hash, accepted, personal, join_tx, accept_tx,
  accept_hashed, accept_decoded, accept,
}
use kasane_mcp.Accounts.Replies.{reply-state, reply-answered}

-- No invitation with this token can be accepted, whenever one asks.
abbrev Spent : Str → Db → Type 0
Spent th db = (now : ℕ) → find_row (open_invitation now th) db.invitations ≡ none

marked-closed :
    (now later : ℕ) (th : Str) (t : Table Invitation)
    → find_row (open_invitation later th) (modify_where (with_hash th) (accepted now) t) ≡ none
unfolding find_row modify_where open_invitation with_hash accepted
marked-closed now later th [] = refl
marked-closed now later th ((k, i) ∷ t) = ground (arith, marked-closed now later th t)

join_tx-Spent :
    (now : ℕ) (w th email u hash : Str) (db : Db)
    → Sat (join_tx now w th email u hash) db (λ _ db'. Spent th db')
unfolding join_tx
join_tx-Spent now w th email u hash db =
    Sat-step
      (insert_owner u (record { email = some email; password_hash = hash; role = Role.user })) _ db
      (λ _ db1 _.
        Sat-step (insert_workspace w (personal now u)) _ db1
          (λ _ db2 _. Sat-exec_last _ db2 (λ later. marked-closed now later th db2.invitations)))

accept_tx-Spent :
    (now : ℕ) (w th u hash : Str) (db : Db)
    → Sat (accept_tx now w th u hash) db (λ _ db'. Spent th db')
unfolding accept_tx
accept_tx-Spent now w th u hash db =
    Sat-query (λ (db : Db). find_row (open_invitation now th) db.invitations) _ db
      (Sat-option (find_row (open_invitation now th) db.invitations) db (λ _. Sat-raise invalid db)
        (λ row _. join_tx-Spent now w th row.1.email u hash db))

accept_tx-refused :
    (now : ℕ) (w th u hash : Str) (db : Db)
    → Spent th db
    → Sat (accept_tx now w th u hash) db (λ _ _. ⊥)
unfolding accept_tx
accept_tx-refused now w th u hash db spent =
    Sat-query (λ (db : Db). find_row (open_invitation now th) db.invitations) _ db
      (Sat-option (find_row (open_invitation now th) db.invitations) db (λ _. Sat-raise invalid db)
        (λ row found. absurd (cc (spent now, found))))

hashed-Spent :
    (crypto : Crypto) (m : Moment) (w : Str) (in' : Acceptance) (hash : Option Str) (db : Db)
    (fs : Faults) (status : ℕ)
    → (accept_hashed crypto m w in' hash db fs).0 ≡ Reply.answered status tt
    → Spent (crypto.hash_token in'.token) (accept_hashed crypto m w in' hash db fs).1
unfolding accept_hashed
hashed-Spent crypto m w in' none db fs status h = absurd cc
hashed-Spent crypto m w in' (some hash) db fs status h =
    let th = crypto.hash_token in'.token in
    rw (reply-state 201 _) (
      transact-ok (λ _ db'. Spent th db') _ db fs tt (accept_tx-Spent m.now w th _ hash db)
        (reply-answered 201 status tt _ h))

pub Refused : Db → Reply (Unit {0}) × Db → Type 0
Refused db r = (n : ℕ) × (r ≡ (Reply.failed n, db))

hashed-Refused :
    (crypto : Crypto) (m : Moment) (w : Str) (in' : Acceptance) (hash : Option Str) (db : Db)
    (fs : Faults)
    → Spent (crypto.hash_token in'.token) db
    → Refused db (accept_hashed crypto m w in' hash db fs)
unfolding accept_hashed reply Refused
hashed-Refused crypto m w in' none db fs spent = (503, refl)
hashed-Refused crypto m w in' (some hash) db fs spent =
    transact-rule (λ r db'. Refused db (reply 201 (r, db'))) _ db fs (λ e. (failure_status e, refl))
      (Sat-weaken (λ _ _ never. absurd never)
        (accept_tx-refused m.now w (crypto.hash_token in'.token) (trim_space in'.username) hash db
          spent))

decoded-Spent :
    (crypto : Crypto) (m : Moment) (w : Str) (in' : Acceptance) (db : Db) (fs : Faults) (status : ℕ)
    → (accept_decoded crypto m w (some in') db fs).0 ≡ Reply.answered status tt
    → Spent (crypto.hash_token in'.token) (accept_decoded crypto m w (some in') db fs).1
unfolding accept_decoded
decoded-Spent crypto m w in' db fs status h =
    elim (Bool-cases (ltb (len in'.token) 20 || ltb 128 (len in'.token))) [
      | inl long ↦ absurd (ground arith)
      | inr fits ↦ elim (Bool-cases (bad_account (trim_space in'.username) in'.password)) [
        | inl bad ↦ absurd (ground arith)
        | inr good ↦ rw (fits, good) (hashed-Spent crypto m w in' _ db fs status (ground arith))
      ]
    ]

decoded-Refused :
    (crypto : Crypto) (m : Moment) (w : Str) (in' : Acceptance) (db : Db) (fs : Faults)
    → Spent (crypto.hash_token in'.token) db
    → Refused db (accept_decoded crypto m w (some in') db fs)
unfolding accept_decoded Refused
decoded-Refused crypto m w in' db fs spent =
    if-rule (Refused db) (ltb (len in'.token) 20 || ltb 128 (len in'.token)) (λ _. (400, refl))
      (λ _.
        if-rule (Refused db) (bad_account (trim_space in'.username) in'.password) (λ _. (400, refl))
          (λ _. hashed-Refused crypto m w in' _ db fs spent))

accept-Spent :
    (crypto : Crypto) (url : Str) (m : Moment) (w : Str) (b : Browser) (in' : Acceptance)
    (entries : Table Throttle) (db : Db) (fs : Faults) (status : ℕ)
    → (accept crypto url m w b (some in') entries db fs).0.0 ≡ Reply.answered status tt
    → Spent (crypto.hash_token in'.token) (accept crypto url m w b (some in') entries db fs).0.1
unfolding accept
accept-Spent crypto url m w b in' entries db fs status h =
    elim (Bool-cases (valid_origin b.origin url)) [
      | inr foreign ↦ absurd (ground arith)
      | inl public ↦ elim (Bool-cases (allow (invitation_prefix ++ b.address) m.clock entries).0) [
        | inr limited ↦ absurd (ground arith)
        | inl allowed ↦
            rw (public, allowed) (decoded-Spent crypto m w in' db fs status (ground arith))
      ]
    ]

accept-Refused :
    (crypto : Crypto) (url : Str) (m : Moment) (w : Str) (b : Browser) (in' : Acceptance)
    (entries : Table Throttle) (db : Db) (fs : Faults)
    → Spent (crypto.hash_token in'.token) db
    → Refused db (accept crypto url m w b (some in') entries db fs).0
unfolding accept Refused
accept-Refused crypto url m w b in' entries db fs spent =
    let answer = λ (r : (Reply (Unit {0}) × Db) × Table Throttle). Refused db r.0 in
    if-rule answer (not (valid_origin b.origin url)) (λ _. (403, refl))
      (λ _.
        if-rule answer (not (allow (invitation_prefix ++ b.address) m.clock entries).0)
          (λ _. (429, refl)) (λ _. decoded-Refused crypto m w in' db fs spent))

-- After an acceptance that succeeded, an acceptance with the same token, by whoever and whenever, is
-- refused with an error status and leaves the tables as they are.
pub accept-accept :
    (crypto : Crypto) (url : Str) (m m' : Moment) (w w' : Str) (b b' : Browser)
    (in' again : Acceptance) (entries entries' : Table Throttle) (db : Db) (fs fs' : Faults)
    (status : ℕ)
    → (accept crypto url m w b (some in') entries db fs).0.0 ≡ Reply.answered status tt
    → again.token ≡ in'.token
    → (n : ℕ) × ((accept crypto url m' w' b'
          (some again)
          entries'
          (accept crypto url m w b (some in') entries db fs).0.1
          fs').0
        ≡ (Reply.failed n, (accept crypto url m w b (some in') entries db fs).0.1))
unfolding Refused
accept-accept crypto url m m' w w' b b' in' again entries entries' db fs fs' status h same =
    accept-Refused crypto url m' w' b' again entries' _ fs' (
      subst
        (λ (t : Str).
          Spent (crypto.hash_token t) (accept crypto url m w b (some in') entries db fs).0.1)
        (sym same) (accept-Spent crypto url m w b in' entries db fs status h))
