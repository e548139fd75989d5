-- ===== src/Accounts/Issued.antt =====
-- A new agent key, `App.keys` on POST, as `App.agent` of internal/server/security.go reads it.
use kasane_mcp.Prelude.{
  ℕ, ◌<◌, ◌≡◌, refl, ap, sym, subst, true, false, not, ◌∷◌, ◌++◌, [], List, some, Str, str_eq_refl,
  arith, Bool-cases, inl, inr, ltb, if◌then◌else◌, Result, ok, err, invalid,
}
use text.Mathlib.Text.{◌==◌ as text_eq}
use kasane_mcp.Table.{Table, lookup, find_row}
use kasane_mcp.Tx.{Faults, run, statement}
use kasane_mcp.Tx.Rules.{
  Sat, Sat-pure, Sat-if, Sat-bind, Sat-raise, Sat-query, Sat-step, Sat-statement, transact-ok,
}
use kasane_mcp.GoText.{len, to_lower}
use kasane_mcp.Store.Schema.{Env, WorkspaceRow}
use kasane_mcp.Server.Http.{Reply}
use kasane_mcp.Server.Access.{Identity}
use kasane_mcp.Accounts.Schema.{KeyRow, Db}
use kasane_mcp.Accounts.Login.{Crypto}
use kasane_mcp.Accounts.Keys.{
  bearer, has_prefix, usable, agent_identity, use_key, agent_found, agent, same_owner, NewKey,
  normalized, bad_name, bad_mode, check_grants_tx, insert_key, insert_grant, insert_grants_tx,
  new_key, create_key_tx, create_granted, create_key,
}
use kasane_mcp.Accounts.Sound.AgentKeys.{uuid_tx-Sat}
use kasane_mcp.Accounts.Authority.{owner_name, agent_identity-key_identity}
use kasane_mcp.Accounts.Replies.{reply-state, reply-answered}

check_grants_tx-Same :
    (env : Env) (home : Str) (grants : List Str) (db : Db)
    → Sat (check_grants_tx env home grants) db (λ _ db'. db' ≡ db)
unfolding check_grants_tx
check_grants_tx-Same env home [] db = Sat-pure tt db refl
check_grants_tx-Same env home (ws ∷ rest) db = uuid_tx-Sat (env.uuid ws) _ db (λ w _.
    uuid_tx-Sat (env.uuid home) _ db (λ h _. Sat-query (same_owner w h) _ db (
      Sat-if (not (same_owner w h db)) db (λ _. Sat-raise invalid db)
        (λ _. check_grants_tx-Same env home rest db))))

module _ (crypto : Crypto) (now : ℕ) (id token h : Str) (in' : NewKey) (db : Db) where
  -- The new key's row is the first, the workspaces are the same.
  abbrev Issued : Db → Type 0
  Issued db' =
      (db'.keys ≡ (id, new_key crypto now token h in') ∷ db.keys) × (db'.workspaces ≡ db.workspaces)

  insert_grants_tx-Issued :
      (env : Env) (grants : List Str) (db1 : Db)
      → Issued db1
      → Sat (insert_grants_tx env id grants) db1 (λ _ db'. Issued db')
  unfolding insert_grants_tx insert_grant
  insert_grants_tx-Issued env [] db1 issued = Sat-pure tt db1 issued
  insert_grants_tx-Issued env (ws ∷ rest) db1 issued = uuid_tx-Sat (env.uuid ws) _ db1 (λ w _.
      Sat-step (insert_grant id w) _ db1 (λ _ db2 eq.
        insert_grants_tx-Issued env rest db2 (ground (arith, issued.0), ground (arith, issued.1))))

  insert_key-Issued :
      (db' : Db) → insert_key id (new_key crypto now token h in') db ≡ ok (tt, db') → Issued db'
  unfolding insert_key
  insert_key-Issued db' eq = (ground arith, ground arith)

  create_key_tx-Issued :
      (env : Env) (home : Str) (grants : List Str)
      → env.uuid home ≡ some h
      → Sat (create_key_tx crypto env now id token home in' grants) db (λ _ db'. Issued db')
  unfolding create_key_tx
  create_key_tx-Issued env home grants eh =
      Sat-bind (check_grants_tx-Same env home grants db) (λ _ db0 same.
        Sat-bind
          (uuid_tx-Sat {Q = λ _ db'. Issued db'} (env.uuid home) _ db0 (λ h' eh'.
            Sat-statement _ db0 (λ _ db1 eq. insert_key-Issued db1 (cc (eq, same, eh, eh')))))
          (λ _ db1 issued. insert_grants_tx-Issued env grants db1 issued))

  create_granted-Issued :
      (env : Env) (home : Str) (fs : Faults) (r : Result (List Str)) (status : ℕ)
      → env.uuid home ≡ some h
      → (create_granted crypto env now id token home in' db fs r).0 ≡ Reply.answered status tt
      → Issued (create_granted crypto env now id token home in' db fs r).1
  unfolding create_granted
  create_granted-Issued env home fs (err e) status eh answered = absurd cc
  create_granted-Issued env home fs (ok grants) status eh answered = rw (reply-state 201 _) (
      transact-ok (λ _ db'. Issued db') _ db fs tt (create_key_tx-Issued env home grants eh)
        (reply-answered 201 status tt _ answered))

create_key-Issued :
    (crypto : Crypto) (env : Env) (now : ℕ) (id token path h : Str) (raw : NewKey) (db : Db)
    (fs : Faults) (status : ℕ)
    → env.uuid (to_lower env.unicode path) ≡ some h
    → (create_key crypto env now id token path raw db fs).0 ≡ Reply.answered status tt
    → Issued crypto now id token h
        (normalized raw)
        db
        (create_key crypto env now id token path raw db fs).1
unfolding create_key
create_key-Issued crypto env now id token path h raw db fs status eh answered =
    elim (Bool-cases (bad_name (normalized raw))) [
      | inl bad ↦ absurd (ground arith)
      | inr name ↦ elim (Bool-cases (bad_mode (normalized raw))) [
        | inl bad ↦ absurd (ground arith)
        | inr mode ↦
            rw (name, mode)
              (create_granted-Issued crypto now id token h (normalized raw) db env
                (to_lower env.unicode path) fs _ status eh (ground arith))
      ]
    ]

has_prefix-append : (p s : Str) → has_prefix p (p ++ s) ≡ true
unfolding has_prefix
has_prefix-append [] s = refl
has_prefix-append (c ∷ p) s = ground (arith, has_prefix-append p s)

first-usable :
    (crypto : Crypto) (now : ℕ) (id token h : Str) (in' : NewKey) (t : Table KeyRow)
    → find_row (usable (crypto.hash_token token)) ((id, new_key crypto now token h in') ∷ t)
      ≡ some (id, new_key crypto now token h in')
unfolding find_row usable new_key
first-usable crypto now id token h in' t = rw (str_eq_refl (crypto.hash_token token)) refl

use_key-first :
    (now' : ℕ) (crypto : Crypto) (now : ℕ) (id token h : Str) (in' : NewKey) (db db' : Db)
    → Issued crypto now id token h in' db db'
    → (use_key now' (crypto.hash_token token) db').0
      ≡ some (agent_identity db.workspaces id (new_key crypto now token h in'))
unfolding use_key
use_key-first now' crypto now id token h in' db db' issued =
    let key = new_key crypto now token h in' in
    let found : find_row (usable (crypto.hash_token token)) db'.keys ≡ some (id, key) =
      subst (λ (t : Table KeyRow). find_row (usable (crypto.hash_token token)) t ≡ some (id, key))
        (sym issued.0) (first-usable crypto now id token h in' db.keys) in
    rw (use_key, found) (ap (λ t. some (agent_identity t id key)) issued.1)

found-answered :
    (now : ℕ) (th : Str) (db : Db) (id : Identity)
    → (use_key now th db).0 ≡ some id
    → (agent_found (run (statement (λ (db : Db). ok (use_key now th db))) db [])).0
      ≡ Reply.answered 200 id
unfolding run statement agent_found
found-answered now th db id h = rw h refl

-- What was asked for: an empty mode is "single".
abbrev pub requested : Table WorkspaceRow → Str → Str → NewKey → Identity
requested workspaces id home raw = record {
  username = owner_name (lookup home workspaces);
  csrf = [];
  workspace = home;
  scope = raw.scope;
  key_id = id;
  access_mode = if text_eq raw.access_mode "" then "single" else raw.access_mode;
  role = "";
  can_create_workspaces = raw.can_create_workspaces;
}

requested-identity :
    (crypto : Crypto) (now : ℕ) (workspaces : Table WorkspaceRow) (id token h : Str) (raw : NewKey)
    → agent_identity workspaces id (new_key crypto now token h (normalized raw))
      ≡ requested workspaces id h raw
unfolding new_key normalized
requested-identity crypto now workspaces id token h raw =
    agent_identity-key_identity workspaces id (new_key crypto now token h (normalized raw))

-- The token that a request for a key has drawn and that was stored is from then on, presented with
-- no Origin and short enough, answered with that key's identity: its ID, the workspace of the path
-- and the owner of that workspace, and the scope, the mode ("single" for an empty one) and the
-- right to create workspaces of the request.
pub create_key-agent :
    (crypto : Crypto) (env : Env) (url : Str) (now now' : ℕ) (id token path h : Str) (raw : NewKey)
    (db : Db) (fs : Faults) (status : ℕ)
    → env.uuid (to_lower env.unicode path) ≡ some h
    → (create_key crypto env now id token path raw db fs).0 ≡ Reply.answered status tt
    → len (bearer ++ token) < 161
    → (agent crypto url now' []
        (bearer ++ token)
        (create_key crypto env now id token path raw db fs).1
        []).0
      ≡ Reply.answered 200 (requested db.workspaces id h raw)
unfolding agent
create_key-agent crypto env url now now' id token path h raw db fs status eh answered short =
    let issued = create_key-Issued crypto env now id token path h raw db fs status eh answered in
    let short' : ltb 160 (len (bearer ++ token)) ≡ false = ground arith in
    rw
      (
        has_prefix-append bearer token,
        short',
        sym (requested-identity crypto now db.workspaces id token h raw),
      )
      (found-answered now' (crypto.hash_token token) _ _
        (use_key-first now' crypto now id token h (normalized raw) db _ issued))
