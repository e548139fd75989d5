-- ===== src/Accounts/Sound/AgentKeys.antt =====
-- `App.agent` and `App.keys` of internal/server/security.go on sound tables.
use kasane_mcp.Prelude.{
  ℕ, ◌≡◌, refl, sym, subst, true, ◌||◌, ◌&&◌, not, Option, none, some, Str, str_eq, arith, is_some,
  if-rule, Bool-cases, Option-cases, inl, inr, ltb, Result, ok, err, unavailable, drop,
}
use kasane_mcp.Table.{lookup, modify, find_row}
use kasane_mcp.Table.Laws.{lookup-modify}
use kasane_mcp.Tx.{Tx, Faults}
use kasane_mcp.Tx.Rules.{Sat, Sat-raise, Sat-exec_last, Sat-statement, run-rule}
use kasane_mcp.GoText.{to_lower, len}
use kasane_mcp.Core.Ids.{valid_id}
use kasane_mcp.Core.Validation.{is_empty}
use kasane_mcp.Store.Consistent.{modify-Keyed}
use kasane_mcp.Store.Schema.{Env}
use kasane_mcp.Server.Http.{Reply}
use kasane_mcp.Server.Access.{Identity}
use kasane_mcp.Accounts.Schema.{KeyRow, Db}
use kasane_mcp.Accounts.Login.{Crypto, valid_origin}
use kasane_mcp.Accounts.Keys.{
  same_owner, uuid_tx, has_prefix, bearer, usable, use_key, agent_found, agent, revoked_key,
  revoke_key, used_key,
}
use kasane_mcp.Accounts.Every.{Every-modify}
use kasane_mcp.Accounts.Sound.{IsSound, KeyOk, sane_key, grant_ok, GrantsOk-weaken}
use kasane_mcp.Accounts.Replies.{reply-state}

-- A change of one key that keeps what soundness reads of it.
module _ (db : Db) (id : Str) (f : KeyRow → KeyRow)
    (ws : (key : KeyRow) → (f key).workspace_id ≡ key.workspace_id)
    (sane : (key : KeyRow) → sane_key key ≡ true → sane_key (f key) ≡ true) where
  changed-grant :
      (k w : Str)
      → grant_ok k w db ≡ true
      → grant_ok k w (record db { keys = modify id f db.keys }) ≡ true
  unfolding same_owner
  changed-grant k w g =
      rw (grant_ok, lookup-modify id k f db.keys)
        (elim (Option-cases (lookup k db.keys)) [
          | inl none' ↦ absurd (ground arith)
          | inr (key, found) ↦ ground (arith, ws key)
        ])

  key_change-IsSound : IsSound db → IsSound (record db { keys = modify id f db.keys })
  key_change-IsSound s = record {
    admins = s.admins;
    accounts = s.accounts;
    admitted = s.admitted;
    emails = s.emails;
    sessions = s.sessions;
    keys =
        Every-modify (KeyOk db.workspaces) id f
          (λ key ok. (
            sane key ok.0,
            subst (λ (h : Str). is_some (lookup h db.workspaces) ≡ true) (sym (ws key)) ok.1,
          ))
          db.keys s.keys;
    grants =
        GrantsOk-weaken db (record db { keys = modify id f db.keys }) changed-grant db.grants
          s.grants;
    keyed = modify-Keyed id f db.keys s.keyed;
  }

used-IsSound :
    (now : ℕ) (token_hash : Str) (db : Db) → IsSound db → IsSound (use_key now token_hash db).1
unfolding use_key
used-IsSound now token_hash db s = elim (Option-cases (find_row (usable token_hash) db.keys)) [
  | inl none' ↦ rw (use_key, none') s
  | inr (row, found) ↦
      rw (use_key, found) (key_change-IsSound db row.0 (used_key now) (λ _. refl) (λ _ h. h) s)
]

agent_found-state : (r : Result (Option Identity) × Db) → (agent_found r).1 ≡ r.1
unfolding agent_found
agent_found-state (err e, db) = refl
agent_found-state (ok none, db) = refl
agent_found-state (ok (some id), db) = refl

pub agent-IsSound :
    (crypto : Crypto) (mcp_url : Str) (now : ℕ) (origin auth : Str) (db : Db) (fs : Faults)
    → IsSound db
    → IsSound (agent crypto mcp_url now origin auth db fs).1
unfolding agent
agent-IsSound crypto mcp_url now origin auth db fs s =
    if-rule (λ (r : Reply Identity × Db). IsSound r.1)
      (not (is_empty origin) && not (valid_origin origin mcp_url)) (λ _. s)
      (λ _.
        if-rule (λ (r : Reply Identity × Db). IsSound r.1)
          (not (has_prefix bearer auth) || ltb 160 (len auth)) (λ _. s)
          (λ _. rw (agent_found-state _) (
            run-rule (λ _ db'. IsSound db') _ db fs (λ _. s)
              (Sat-statement _ db (λ id db' eq.
                subst IsSound (ground arith)
                  (used-IsSound now (crypto.hash_token (drop 7 auth)) db s))))))

pub uuid_tx-Sat :
    {A : Type 0} {Q : A → Db → Type 0} (o : Option Str) (k : Str → Tx Db A) (db : Db)
    → ((w : Str) → o ≡ some w → Sat (k w) db Q)
    → Sat (uuid_tx o k) db Q
unfolding uuid_tx
uuid_tx-Sat none k db h = Sat-raise unavailable db
uuid_tx-Sat (some w) k db h = h w refl

revoked-sane :
    (now : ℕ) (w : Str) (key : KeyRow)
    → sane_key key ≡ true
    → sane_key (revoked_key now w key) ≡ true
unfolding revoked_key
revoked-sane now w key h =
    elim (Bool-cases (str_eq key.workspace_id w && not (is_some key.revoked_at))) [
      | inl e ↦ rw e h
      | inr e ↦ rw e h
    ]

revoked-workspace :
    (now : ℕ) (w : Str) (key : KeyRow) → (revoked_key now w key).workspace_id ≡ key.workspace_id
unfolding revoked_key
revoked-workspace now w key = ground arith

pub revoke_key-IsSound :
    (env : Env) (now : ℕ) (path id : Str) (db : Db) (fs : Faults)
    → IsSound db
    → IsSound (revoke_key env now path id db fs).1
unfolding revoke_key
revoke_key-IsSound env now path id db fs s =
    if-rule (λ (r : Reply (Unit {0}) × Db). IsSound r.1) (not (valid_id id)) (λ _. s)
      (λ _. rw (reply-state 200 _) (
        run-rule (λ _ db'. IsSound db') _ db fs (λ _. s)
          (uuid_tx-Sat (env.uuid id) _ db (λ i _.
            uuid_tx-Sat (env.uuid (to_lower env.unicode path)) _ db (λ w _. Sat-exec_last _ db (
              key_change-IsSound db i (revoked_key now w) (revoked-workspace now w)
                (revoked-sane now w) s))))))
