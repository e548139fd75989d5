-- ===== src/Accounts/Sessions.antt =====
-- Sessions: what `App.login` opens, `App.owner` accepts and the logout closes (internal/server).
use kasane_mcp.Prelude.{
  ℕ, ◌+◌, ◌<◌, ◌≡◌, refl, sym, subst, ◌⊎◌, ◌≢◌, true, Option, none, some, Str, str_eq, str_eq_refl,
  arith, Bool-cases, Option-cases, inl, inr, ltb, Result, ok, err,
}
use kasane_mcp.Table.{Table, lookup}
use kasane_mcp.Table.Laws.{lookup-remove}
use kasane_mcp.Tx.{Faults, run, query}
use kasane_mcp.Tx.Rules.{Sat-exec_last, run-ok}
use kasane_mcp.Server.Http.{Reply}
use kasane_mcp.Server.Access.{Identity}
use kasane_mcp.Accounts.Schema.{Owner, Session, Db}
use kasane_mcp.Accounts.Login.{
  Crypto, Browser, Credentials, Moment, valid_origin, session_owner, browser_identity, check_csrf,
  owner_cookie, owner, logout,
}
use kasane_mcp.Accounts.Replies.{reply-state, reply-answered, run-query}

-- A request that may change something carries the session's token and comes from the public site.
abbrev pub Guarded : Str → Browser → Session → Type 0
Guarded url b s =
    (b.safe ≡ true)
    ⊎ ((valid_origin b.origin url ≡ true) × (str_eq s.csrf_token b.csrf_header ≡ true))

-- The session that a login opens.
abbrev pub opened : Moment → Str → Session
opened m u = record { username = u; csrf_token = m.csrf; expires_at = m.clock + 86400000000 }

-- The tables that a login leaves: its session is there, the accounts are the same.
abbrev Opens : Crypto → Moment → Str → Db → Db → Type 0
Opens crypto m u db db' =
    (lookup (crypto.hash_token m.token) db'.sessions ≡ some (opened m u)) × (db'.owners ≡ db.owners)

session_owner-inv :
    (now : ℕ) (h : Str) (db : Db) (s : Session) (o : Owner)
    → session_owner now h db ≡ some (s, o)
    → (lookup h db.sessions ≡ some s)
      × (lookup s.username db.owners ≡ some o)
      × (now < s.expires_at)
unfolding session_owner
session_owner-inv now h db s o eq = elim (Option-cases (lookup h db.sessions)) [
  | inl none' ↦ absurd (ground arith)
  | inr (s', found) ↦ elim (Option-cases (lookup s'.username db.owners)) [
    | inl none' ↦ absurd (ground arith)
    | inr (o', account) ↦ elim (Bool-cases (ltb now s'.expires_at)) [
      | inr late ↦ absurd (ground arith)
      | inl live ↦
          let same_session : s' ≡ s = ground arith in
          let same_owner' : o' ≡ o = ground arith in (ground arith, ground arith, ground arith)
    ]
  ]
]

check_csrf-inv :
    (url : Str) (b : Browser) (r : Result (Option (Session × Owner))) (status : ℕ) (id : Identity)
    → check_csrf url b r ≡ Reply.answered status id
    → (s : Session) × (o : Owner) × (r ≡ ok (some (s, o)))
      × Guarded url b s
      × (id ≡ browser_identity (s, o))
unfolding check_csrf
check_csrf-inv url b (err e) status id h = absurd cc
check_csrf-inv url b (ok none) status id h = absurd cc
check_csrf-inv url b (ok (some (s, o))) status id h = (s, o, refl, guarded, ground arith)
  where
    guarded : Guarded url b s
    guarded = elim (Bool-cases b.safe) [
      | inl safe ↦ inl safe
      | inr unsafe ↦ inr (ground arith, ground arith)
    ]

-- What a cookie stands for.
pub record Accepts (crypto : Crypto) (url : Str) (now : ℕ) (b : Browser) (db : Db) (id : Identity)
    : Type 0 where
  pub cookie : Str
  pub sent : b.cookie ≡ some cookie
  pub session : Session
  pub account : Owner
  pub found : lookup (crypto.hash_token cookie) db.sessions ≡ some session
  pub registered : lookup session.username db.owners ≡ some account
  pub live : now < session.expires_at
  pub guarded : Guarded url b session
  pub same : id ≡ browser_identity (session, account)

cookie-inv :
    (crypto : Crypto) (url : Str) (now : ℕ) (b : Browser) (o : Option Str) (db : Db) (fs : Faults)
    (status : ℕ) (id : Identity)
    → b.cookie ≡ o
    → owner_cookie crypto url now b o db fs ≡ Reply.answered status id
    → Accepts crypto url now b db id
unfolding owner_cookie
cookie-inv crypto url now b none db fs status id sent h = absurd cc
cookie-inv crypto url now b (some cookie) db fs status id sent h =
    let checked : check_csrf url b
          (run (query (session_owner now (crypto.hash_token cookie))) db fs).0
        ≡ Reply.answered status id =
      ground arith in
    let inv = check_csrf-inv url b _ status id checked in
    let read = run-query (session_owner now (crypto.hash_token cookie)) db fs _ inv.2 in
    let row = session_owner-inv now (crypto.hash_token cookie) db inv.0 inv.1 (sym read) in
    record {
      cookie = cookie;
      sent = sent;
      session = inv.0;
      account = inv.1;
      found = row.0;
      registered = row.1;
      live = row.2;
      guarded = inv.3;
      same = inv.4;
    }

-- The browser's handlers run, whatever statement fails, only for a request whose cookie is the
-- token of a session that has not expired, with the identity of that session's account; and a
-- request that is not GET or HEAD also has the Origin of the public URL and the CSRF token of that
-- session.
pub owner-Accepts :
    (crypto : Crypto) (url : Str) (now : ℕ) (b : Browser) (db : Db) (fs : Faults) (status : ℕ)
    (id : Identity)
    → owner crypto url now b db fs ≡ Reply.answered status id
    → Accepts crypto url now b db id
unfolding owner
owner-Accepts crypto url now b db fs status id h =
    cookie-inv crypto url now b b.cookie db fs status id refl h

-- A login that succeeded has found the account, with this password, and opened its session.
abbrev LoggedIn : Crypto → Moment → Credentials → Result (Option Owner) → Db → Db → Type 0
LoggedIn crypto m in' r db db' =
    (o : Owner) × (r ≡ ok (some o))
    × (crypto.matches o.password_hash in'.password ≡ true)
    × Opens crypto m in'.username db db'

-- After a logout that succeeded no request with its cookie is answered by the browser's handlers.
pub logout-owner :
    (crypto : Crypto) (url cookie : Str) (db : Db) (fs fs' : Faults) (now : ℕ) (b : Browser)
    (status status' : ℕ) (id : Identity)
    → (logout crypto cookie db fs).0 ≡ Reply.answered status tt
    → b.cookie ≡ some cookie
    → owner crypto url now b (logout crypto cookie db fs).1 fs' ≢ Reply.answered status' id
unfolding logout
logout-owner crypto url cookie db fs fs' now b status status' id h sent answered =
    let a = owner-Accepts crypto url now b (logout crypto cookie db fs).1 fs' status' id answered in
    let gone : lookup (crypto.hash_token cookie) (logout crypto cookie db fs).1.sessions ≡ none =
      rw (reply-state 200 _) (
        run-ok (λ _ db'. lookup (crypto.hash_token cookie) db'.sessions ≡ none) _ db fs tt
          (Sat-exec_last _ db (
            rw
              (
                lookup-remove (crypto.hash_token cookie) (crypto.hash_token cookie) db.sessions,
                str_eq_refl (crypto.hash_token cookie),
              )
              refl))
          (reply-answered 200 status tt _ h)) in
    let same : a.cookie ≡ cookie = cc (a.sent, sent) in
    let still =
      subst
        (λ (c : Str).
          lookup (crypto.hash_token c) (logout crypto cookie db fs).1.sessions ≡ some a.session)
        same a.found in
    absurd (cc (gone, still))
