-- ===== src/Accounts/Authority.antt =====
-- What an agent key stands for: `App.agent` and `App.keys` of internal/server/security.go.
use kasane_mcp.Prelude.{
  ℕ, ◌≡◌, ◌≢◌, refl, ◌∙◌, subst, Bool, true, false, ◌||◌, ◌&&◌, not, ◌∷◌, [], Option, none, some,
  Str, str_eq_iff, str_eq_refl, arith, Bool-cases, Option-cases, inl, inr, ltb, drop, Result, ok,
  err,
}
use kasane_mcp.Table.{Table, lookup, modify, find_row}
use kasane_mcp.Table.Laws.{lookup-modify_at, find_row-some}
use kasane_mcp.Tx.{exec, Faults, run, statement}
use kasane_mcp.Tx.Rules.{Sat-exec_last, Sat-statement, run-ok}
use kasane_mcp.GoText.{len, to_lower}
use kasane_mcp.Core.Ids.{valid_id}
use kasane_mcp.Core.Validation.{is_empty}
use kasane_mcp.Store.Consistent.{Keyed, modify-Keyed}
use kasane_mcp.Store.Schema.{Env, WorkspaceRow}
use kasane_mcp.Server.Http.{Reply, reply}
use kasane_mcp.Server.Access.{Identity}
use kasane_mcp.Accounts.Schema.{KeyRow, Db}
use kasane_mcp.Accounts.Login.{Crypto, valid_origin}
use kasane_mcp.Accounts.Keys.{
  uuid_tx, bearer, has_prefix, usable, agent_identity, use_key, agent_found, agent, revoked_key,
  revoke_key,
}
use kasane_mcp.Accounts.Sound.{IsSound}
use kasane_mcp.Accounts.Sound.AgentKeys.{uuid_tx-Sat}
use kasane_mcp.Accounts.Replies.{reply-state, reply-answered}

-- With one row for a key, the row that is found is the row under its key.
pub find_row-lookup :
    {V : Type 0} (p : V → Bool) (t : Table V) (k : Str) (v : V)
    → Keyed t
    → find_row p t ≡ some (k, v)
    → lookup k t ≡ some v
unfolding find_row lookup
find_row-lookup p [] k v keyed h = cc
find_row-lookup p ((j, w) ∷ t) k v keyed h = ground (arith, str_eq_iff j k, find_row-lookup p t k v)

-- The owner of a workspace, or no name.
abbrev pub owner_name : Option WorkspaceRow → Str
owner_name none = []
owner_name (some row) = elim row.owner_username [ none ↦ [] | some username ↦ username ]

-- What a key stands for: itself, its workspace, scope, mode and right, and the workspace's owner.
abbrev pub key_identity : Table WorkspaceRow → Str → KeyRow → Identity
key_identity workspaces id key = record {
  username = owner_name (lookup key.workspace_id workspaces);
  csrf = [];
  workspace = key.workspace_id;
  scope = key.scope;
  key_id = id;
  access_mode = key.access_mode;
  role = "";
  can_create_workspaces = key.can_create_workspaces;
}

pub agent_identity-key_identity :
    (workspaces : Table WorkspaceRow) (id : Str) (key : KeyRow)
    → agent_identity workspaces id key ≡ key_identity workspaces id key
unfolding agent_identity
agent_identity-key_identity workspaces id key =
    elim (Option-cases (lookup key.workspace_id workspaces)) [
      | inl e ↦ rw e refl
      | inr (row, e) ↦
          rw e (elim (Option-cases row.owner_username) [
            | inl o ↦ rw o refl
            | inr (name, o) ↦ rw o refl
          ])
    ]

-- A usable key has the hash, and is not revoked.
usable-inv :
    (token_hash : Str) (key : KeyRow)
    → usable token_hash key ≡ true
    → (key.token_hash ≡ token_hash) × (key.revoked_at ≡ none)
unfolding usable
usable-inv token_hash key h = (ground (arith, str_eq_iff key.token_hash token_hash), ground arith)

-- What an answer of `App.agent` rests on.
pub record Authentic (crypto : Crypto) (auth : Str) (db db' : Db) (now : ℕ) (id : Identity)
    : Type 0 where
  pub key_id : Str
  pub key : KeyRow
  pub presented : has_prefix bearer auth ≡ true
  pub found : find_row (usable (crypto.hash_token (drop 7 auth))) db.keys ≡ some (key_id, key)
  pub token : key.token_hash ≡ crypto.hash_token (drop 7 auth)
  pub unrevoked : key.revoked_at ≡ none
  pub same : id ≡ key_identity db.workspaces key_id key
  pub touched : db' ≡ record db {
    keys = modify key_id (λ (k : KeyRow). record k { last_used_at = some now }) db.keys;
  }

use_key-inv :
    (crypto : Crypto) (now : ℕ) (auth : Str) (db db' : Db) (o : Option Identity)
    → ok (use_key now (crypto.hash_token (drop 7 auth)) db) ≡ ok (o, db')
    → has_prefix bearer auth ≡ true
    → (id : Identity) → o ≡ some id
    → Authentic crypto auth db db' now id
unfolding use_key
use_key-inv crypto now auth db db' o eq prefix id h =
    elim (Option-cases (find_row (usable (crypto.hash_token (drop 7 auth))) db.keys)) [
      | inl none' ↦ absurd (ground arith)
      | inr (row, found) ↦
          let held =
            usable-inv (crypto.hash_token (drop 7 auth)) row.1
              (find_row-some (usable (crypto.hash_token (drop 7 auth))) _ row.0 row.1 found) in
          let made = agent_identity-key_identity db.workspaces row.0 row.1 in
          record {
            key_id = row.0;
            key = row.1;
            presented = prefix;
            found = found;
            token = held.0;
            unrevoked = held.1;
            same = ground (arith, made);
            touched = ground arith;
          }
    ]

found-inv :
    (r : Result (Option Identity) × Db) (status : ℕ) (id : Identity)
    → (agent_found r).0 ≡ Reply.answered status id
    → (r.0 ≡ ok (some id)) × ((agent_found r).1 ≡ r.1)
unfolding agent_found
found-inv (err e, s) status id h = absurd cc
found-inv (ok none, s) status id h = absurd cc
found-inv (ok (some id'), s) status id h = (cc, refl)

-- `App.agent` answers, whatever statement fails, only a request with a Bearer token whose hash a
-- key has that is not revoked, with the identity of that key: its ID, workspace, scope, mode and right to create
-- workspaces, and the owner of its workspace. It writes nothing but the time at which that key was
-- last used.
pub agent-Authentic :
    (crypto : Crypto) (url : Str) (now : ℕ) (origin auth : Str) (db : Db) (fs : Faults) (status : ℕ)
    (id : Identity)
    → (agent crypto url now origin auth db fs).0 ≡ Reply.answered status id
    → Authentic crypto auth db (agent crypto url now origin auth db fs).1 now id
unfolding agent
agent-Authentic crypto url now origin auth db fs status id h =
    elim (Bool-cases (not (is_empty origin) && not (valid_origin origin url))) [
      | inl foreign ↦ absurd (ground arith)
      | inr public ↦ elim (Bool-cases (not (has_prefix bearer auth) || ltb 160 (len auth))) [
        | inl malformed ↦ absurd (ground arith)
        | inr formed ↦
            let body =
              statement (λ (db : Db). ok (use_key now (crypto.hash_token (drop 7 auth)) db)) in
            let done = found-inv (run body db fs) status id (ground arith) in
            rw (public, formed, done.1)
              (run-ok (λ o db'. (id : Identity) → o ≡ some id → Authentic crypto auth db db' now id)
                body db fs (some id)
                (Sat-statement _ db
                  (λ o db' eq. use_key-inv crypto now auth db db' o eq (ground arith)))
                done.0 id refl)
      ]
    ]

revoked-unusable :
    (now : ℕ) (h : Str) (key : KeyRow) → usable h (revoked_key now key.workspace_id key) ≡ false
unfolding usable revoked_key
revoked-unusable now h key = ground (arith, str_eq_refl key.workspace_id)

revoke_key-rows :
    (env : Env) (now : ℕ) (path id i w : Str) (db : Db) (fs : Faults) (status : ℕ)
    → env.uuid id ≡ some i
    → env.uuid (to_lower env.unicode path) ≡ some w
    → (revoke_key env now path id db fs).0 ≡ Reply.answered status tt
    → (revoke_key env now path id db fs).1.keys ≡ modify i (revoked_key now w) db.keys
unfolding revoke_key
revoke_key-rows env now path id i w db fs status ei ew h = elim (Bool-cases (valid_id id)) [
  | inr bad ↦ absurd (ground arith)
  | inl good ↦
      let answered : (reply 200 (
            run
              (uuid_tx (env.uuid id) (λ i. uuid_tx (env.uuid (to_lower env.unicode path)) (λ w.
                exec (λ (db : Db). record db { keys = modify i (revoked_key now w) db.keys }))))
              db fs)).0
          ≡ Reply.answered status tt =
        ground arith in
      rw good (
        rw (reply-state 200 _) (
          run-ok (λ _ db'. db'.keys ≡ modify i (revoked_key now w) db.keys) _ db fs tt
            (uuid_tx-Sat (env.uuid id) _ db (λ i' ei'.
              uuid_tx-Sat (env.uuid (to_lower env.unicode path)) _ db
                (λ w' ew'. Sat-exec_last _ db (cc (ei, ei', ew, ew')))))
            (reply-answered 200 status tt _ answered)))
]

-- On sound tables, after a revocation that succeeded of a key of the workspace, no agent is answered
-- with the identity of that key.
pub revoke_key-agent :
    (crypto : Crypto) (env : Env) (url : Str) (now now' : ℕ) (path id i origin auth : Str)
    (key : KeyRow) (db : Db) (fs fs' : Faults) (status status' : ℕ) (identity : Identity)
    → IsSound db
    → env.uuid id ≡ some i
    → lookup i db.keys ≡ some key
    → env.uuid (to_lower env.unicode path) ≡ some key.workspace_id
    → (revoke_key env now path id db fs).0 ≡ Reply.answered status tt
    → (agent crypto url now' origin auth (revoke_key env now path id db fs).1 fs').0
      ≡ Reply.answered status' identity
    → identity.key_id ≢ i
revoke_key-agent crypto env url now now' path id i origin auth key db fs fs' status status' identity
      s ei ek ew h answered same =
    let rows = revoke_key-rows env now path id i key.workspace_id db fs status ei ew h in
    let a =
      agent-Authentic crypto url now' origin auth (revoke_key env now path id db fs).1 fs' status'
        identity answered in
    let th = crypto.hash_token (drop 7 auth) in
    let f = revoked_key now key.workspace_id in
    let found : find_row (usable th) (modify i f db.keys) ≡ some (a.key_id, a.key) =
      subst (λ (t : Table KeyRow). find_row (usable th) t ≡ some (a.key_id, a.key)) rows a.found in
    let here : lookup a.key_id (modify i f db.keys) ≡ some a.key =
      find_row-lookup (usable th) _ a.key_id a.key (modify-Keyed i f db.keys s.keyed) found in
    let mine : lookup i (modify i f db.keys) ≡ some (f key) =
      ((lookup-modify_at i i f db.keys key ek) ∙ (rw (str_eq_refl i) refl)) in
    let ids : a.key_id ≡ i = cc (a.same, same) in
    let spent : a.key ≡ f key = cc (here, mine, ids) in
    absurd
      (cc (find_row-some (usable th) _ a.key_id a.key found, revoked-unusable now th key, spent))
