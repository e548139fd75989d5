-- ===== src/Server/Access/Granted.antt =====
-- The answers of `workspacePrincipal` (internal/server/workspace_tools.go).
use text.Mathlib.Text.{◌==◌ as text_eq}
use kasane_mcp.Prelude.{
  ◌≡◌, refl, sym, ap, subst, Bool, true, ◌&&◌, ◌||◌, not, Option, none, some, Str, str_eq, arith,
  inl, inr, Result, ok, ok-cases, ok-injective, err, Error, invalid, forbidden, unavailable,
}
use kasane_mcp.GoText.{to_lower}
use kasane_mcp.Tx.{Tx, Faults, query}
use kasane_mcp.Tx.Rules.{
  Reads, Sat-pure, Sat-raise, Sat-if, Sat-reads, Sat-statement, Sat-weaken, run-rule,
}
use kasane_mcp.Core.Ids.{valid_id}
use kasane_mcp.Core.Validation.{is_empty}
use kasane_mcp.Store.Schema.{Env}
use kasane_mcp.Server.Access.{
  Identity, Grants, principal, owns, granted, param_tx, allowed_tx, choose_tx, workspace_tx,
  workspace_principal,
}

-- What lets a key into a workspace, by its mode: its owner's workspaces, those of them that were
-- granted to it, or its own.
pub data Access (env : Env) (id : Identity) (db : Grants) (ws : Str) : Type 0 where
  all :
      (w : Str)
      → text_eq id.access_mode "all" ≡ true
      → env.uuid ws ≡ some w
      → owns id.username w db ≡ true
      → Access env id db ws
  selected :
      (key w : Str)
      → text_eq id.access_mode "selected" ≡ true
      → env.uuid id.key_id ≡ some key
      → env.uuid ws ≡ some w
      → granted key w db.grants ≡ true
      → owns id.username w db ≡ true
      → Access env id db ws
  single : str_eq ws id.workspace ≡ true → Access env id db ws

-- The identity in the context, with the chosen workspace in place of its own.
pub record Allowed (env : Env) (context : Option Identity) (write : Bool) (db : Grants)
    (out : Identity) : Type 0 where
  pub id : Identity
  pub authenticated : context ≡ some id
  pub may_write : write ≡ true → text_eq id.scope "write" ≡ true
  pub access : Access env id db out.workspace
  pub rest : out ≡ record id { workspace = out.workspace }

query-Reads :
    {A : Type 0} {R : A → Type 0} (q : Grants → A) (db : Grants) → R (q db) → Reads (query q) db R
unfolding query
query-Reads {R = R} q db r =
    Sat-statement (λ s. ok (q s, s)) db
      (λ a s e. let p = ok-injective e in (ap (λ x. x.1) (sym p), subst R (ap (λ x. x.0) p) r))

param_tx-Reads :
    {R : Bool → Type 0} (o : Option Str) (k : Str → Tx Grants Bool) (db : Grants)
    → ((w : Str) → o ≡ some w → Reads (k w) db R)
    → Reads (param_tx o k) db R
unfolding param_tx
param_tx-Reads none k db h = Sat-raise unavailable db
param_tx-Reads (some w) k db h = h w refl

module _ (env : Env) (id : Identity) (db : Grants) where
  selected-Reads :
      (ws key w : Str)
      → text_eq id.access_mode "selected" ≡ true
      → env.uuid id.key_id ≡ some key
      → env.uuid ws ≡ some w
      → Reads
          (query (λ (db : Grants). granted key w db.grants && owns id.username w db))
          db
          (λ b. b ≡ true → Access env id db ws)
  selected-Reads ws key w mode key_reads reads =
      query-Reads _ db (λ yes'. selected key w mode key_reads reads (ground arith) (ground arith))

  allowed_tx-Reads :
      (ws : Str) → Reads (allowed_tx env id ws) db (λ b. b ≡ true → Access env id db ws)
  unfolding allowed_tx
  allowed_tx-Reads ws =
      Sat-if (text_eq id.access_mode "all") db
        (λ mode.
          param_tx-Reads (env.uuid ws) _ db
            (λ w reads. query-Reads (owns id.username w) db (λ yes'. all w mode reads yes')))
        (λ _.
          Sat-if (text_eq id.access_mode "selected") db
            (λ mode. param_tx-Reads (env.uuid id.key_id) _ db (λ key key_reads.
              param_tx-Reads (env.uuid ws) _ db
                (λ w reads. selected-Reads ws key w mode key_reads reads)))
            (λ _. Sat-pure (str_eq ws id.workspace) db (refl, λ yes'. single yes')))

module _ (env : Env) (write : Bool) (id : Identity) (db : Grants)
    (may_write : write ≡ true → text_eq id.scope "write" ≡ true) where
  choose_tx-Reads : (ws : Str) → Reads (choose_tx env id ws) db (Allowed env (some id) write db)
  unfolding choose_tx
  choose_tx-Reads ws =
      Sat-if (not (valid_id ws)) db (λ _. Sat-raise invalid db)
        (λ _. Sat-reads _ (allowed_tx-Reads env id db (to_lower env.unicode ws)) (λ allowed access.
          Sat-if (not allowed) db (λ _. Sat-raise forbidden db)
            (λ granted'. Sat-pure _ db (
              refl,
              record {
                id = id;
                authenticated = refl;
                may_write = may_write;
                access = access (ground arith);
                rest = refl;
              },
            ))))

  identified_tx-Reads :
      (ws : Str) → Reads (workspace_tx env ws (ok id)) db (Allowed env (some id) write db)
  unfolding workspace_tx
  identified_tx-Reads ws =
      Sat-if (is_empty ws) db
        (λ _.
          Sat-if (text_eq id.access_mode "all" || text_eq id.access_mode "selected") db
            (λ _. Sat-raise invalid db) (λ _. choose_tx-Reads id.workspace))
        (λ _. choose_tx-Reads ws)

refused-Reads :
    {R : Identity → Type 0} (env : Env) (ws : Str) (e : Error) (db : Grants)
    → Reads (workspace_tx env ws (err e)) db R
unfolding workspace_tx
refused-Reads env ws e db = Sat-raise e db

principal-may_write :
    (id out : Identity) (write : Bool)
    → principal (some id) write ≡ ok out
    → (out ≡ id) × (write ≡ true → text_eq id.scope "write" ≡ true)
unfolding principal
principal-may_write id out write h = (ground arith, λ w. ground arith)

workspace_tx-Reads :
    (env : Env) (context : Option Identity) (ws : Str) (write : Bool) (db : Grants)
    → Reads (workspace_tx env ws (principal context write)) db (Allowed env context write db)
workspace_tx-Reads env none ws write db = unfold principal in refused-Reads env ws unavailable db
workspace_tx-Reads env (some id) ws write db = elim (ok-cases (principal (some id) write)) [
  | inl (out, e) ↦
      let facts = principal-may_write id out write e in
      rw e (rw facts.0 (identified_tx-Reads env write id db facts.1 ws))
  | inr (error, e) ↦ rw e (refused-Reads env ws error db)
]

-- Either an error, or an identity with what it may do; and the tables as they were.
pub data Answer (env : Env) (context : Option Identity) (write : Bool) (db : Grants)
    : Result Identity → Grants → Type 0 where
  refused : (e : Error) → Answer env context write db (err e) db
  allowed :
      {out : Identity} {db' : Grants}
      → db' ≡ db
      → Allowed env context write db out
      → Answer env context write db (ok out) db'

-- Whatever the context, the workspace that a tool call names, the tables and the statements that
-- fail: the tables stay as they were, and either an error is returned or the identity of the context
-- with the workspace put in place of its own. Then the key has write scope if the call writes, and
-- the workspace belongs to the key's user (mode "all"), also is granted to the key (mode "selected"),
-- or is the key's own workspace.
pub workspace_principal-Answer :
    (env : Env) (context : Option Identity) (ws : Str) (write : Bool) (db : Grants) (fs : Faults)
    → Answer env context write db
        (workspace_principal env context ws write db fs).0
        (workspace_principal env context ws write db fs).1
unfolding workspace_principal
workspace_principal-Answer env context ws write db fs =
    run-rule (Answer env context write db) _ db fs refused
      (Sat-weaken (λ out db' r. allowed r.0 r.1) (workspace_tx-Reads env context ws write db))
