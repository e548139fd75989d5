-- ===== src/Feedback.antt =====
-- The review queue of relevance evaluations: internal/store/decision_feedback.go over the tables of
-- internal/store/decision_feedback.sql. Times are in microseconds; `now` is the transaction's now().
pub mod Rows
pub mod Lawful
pub mod Keeps
pub mod Lifecycle
pub mod Reads
use kasane_mcp.Prelude.{
  ℕ, ◌+◌, ◌*◌, Bool, true, false, ◌&&◌, ◌||◌, not, List, [], ◌∷◌, Option, none, some, Str, str_eq,
  ltb, leb, ◌==◌, is_some, if◌then◌else◌, Result, ok, err, invalid, conflict, not_found,
  unavailable,
}
use kasane_mcp.GoText.{len}
use kasane_mcp.Table.{lookup}
use kasane_mcp.Tx.{Tx, Faults, pure, raise, statement, query, exec, ◌>>=◌, ◌>>◌, transact, run}
use kasane_mcp.Core.Ids.{valid_uuid}
use kasane_mcp.Feedback.Rows.{
  Env, Status, Evaluation, Policy, Db, is_generated, of_pair, find_where, map_where, count_where,
  live, put_policy,
}

-- A text in a uuid position. The driver converts it before the statement is sent.
unfoldable pub uuid_tx : {A : Type 0} → Option Str → (Str → Tx Db A) → Tx Db A
uuid_tx none k = raise unavailable
uuid_tx (some id) k = k id

-- COALESCE((SELECT agent_candidates_enabled …), false)
abbrev pub enabled_in : Option Policy → Bool
enabled_in none = false
enabled_in (some p) = p.enabled

unfoldable pub automatic : Str → Db → Bool
automatic w db = enabled_in (lookup w db.policies)

unfoldable pub new_evaluation : Env → ℕ → Str → Str → Str → Str → Str → ℕ → Bool → Evaluation
new_evaluation env now w id hash actor payload days auto = record {
  id = id;
  workspace_id = w;
  request_hash = hash;
  submitted_by = actor;
  payload = some (env.stored payload);
  review_status = if auto then Status.agent_generated else Status.unreviewed;
  review = none;
  reviewed_by = none;
  reviewed_at = none;
  permission_granted_at = if auto then some now else none;
  created_at = now;
  expires_at = now + days * 86400000000;
}

-- `old`, the evaluation with the same ID. `clock` is time.Now().
unfoldable pub again_tx : ℕ → Str → Str → Evaluation → Tx Db Evaluation
again_tx clock hash actor old =
    if not (str_eq old.request_hash hash) || not (str_eq old.submitted_by actor)
    then raise conflict
    else if not (is_some old.payload) || not (ltb clock old.expires_at)
    then raise not_found
    else pure old

unfoldable pub insert_tx : Evaluation → Tx Db Evaluation
insert_tx new = do exec (λ (db : Db). record db { evaluations = new ∷ db.evaluations }); pure new

unfoldable pub save_tx : Env → ℕ → ℕ → Str → Str → Str → Str → Str → ℕ → Tx Db Evaluation
save_tx env now clock w id hash actor payload days = do
  exec (λ (db : Db). db)
  found ← query (λ (db : Db). find_where (of_pair w id) db.evaluations)
  elim found [
    | some old ↦ again_tx clock hash actor old
    | none ↦ do
      n ← query (λ (db : Db). count_where (live now w) db.evaluations)
      if leb 500 n then raise conflict else (do
        auto ← query (automatic w)
        insert_tx (new_evaluation env now w id hash actor payload days auto))
  ]

unfoldable pub bad_save : Env → Str → Str → Str → Str → ℕ → Bool
bad_save env ws id hash payload days =
    not (valid_uuid ws)
    || not (valid_uuid id)
    || not (len hash == 64)
    || ltb 2097152 (len payload)
    || not (env.valid_json payload)
    || ltb days 1
    || ltb 365 days

-- `Store.SaveDecisionEvaluation`
unfoldable pub save :
    Env → ℕ → ℕ → Str → Str → Str → Str → Str → ℕ → Db → Faults → Result Evaluation × Db
save env now clock ws id hash actor payload days db fs =
    if bad_save env ws id hash payload days
    then (err invalid, db)
    else transact
        (uuid_tx (env.uuid ws)
          (λ w. uuid_tx (env.uuid id) (λ i. save_tx env now clock w i hash actor payload days)))
        db fs

-- review_status='unreviewed' AND payload IS NOT NULL AND expires_at>now()
unfoldable pub reviewable : ℕ → Str → Str → Evaluation → Bool
reviewable now w id e =
    of_pair w id e
    && (elim e.review_status [
      | Status.unreviewed ↦ true
      | Status.agent_generated ↦ false
      | Status.reviewed ↦ false
      | Status.withdrawn ↦ false
    ])
    && is_some e.payload
    && ltb now e.expires_at

unfoldable pub reviewed_row : Env → ℕ → Str → Str → Evaluation → Evaluation
reviewed_row env now actor review e = record e {
  review_status = Status.reviewed;
  review = some (env.stored review);
  reviewed_by = some actor;
  reviewed_at = some now;
  permission_granted_at = some now;
}

-- UPDATE … RETURNING; no row is a conflict.
unfoldable pub review_rows : Env → ℕ → Str → Str → Str → Str → Db → Result (Evaluation × Db)
review_rows env now w id actor review db = elim (find_where (reviewable now w id) db.evaluations) [
  | none ↦ err conflict
  | some e ↦ ok (
    reviewed_row env now actor review e,
    record db {
      evaluations =
          map_where (reviewable now w id) (reviewed_row env now actor review) db.evaluations;
    },
  )
]

-- `Store.ReviewDecisionEvaluation`
unfoldable pub review : Env → ℕ → Str → Str → Str → Str → Db → Faults → Result Evaluation × Db
review env now ws id actor text db fs =
    if not (valid_uuid ws) || not (valid_uuid id) || not (env.valid_json text)
    then (err invalid, db)
    else run
        (uuid_tx (env.uuid ws)
          (λ w. uuid_tx (env.uuid id) (λ i. statement (review_rows env now w i actor text))))
        db fs

-- SET review_status='withdrawn',payload=NULL,review=NULL
unfoldable pub withdrawn_row : Evaluation → Evaluation
withdrawn_row e = record e { review_status = Status.withdrawn; payload = none; review = none }

-- The update, and whether a row was affected.
unfoldable pub withdraw_rows : Str → Str → Db → Bool × Db
withdraw_rows w id db = (
  is_some (find_where (of_pair w id) db.evaluations),
  record db { evaluations = map_where (of_pair w id) withdrawn_row db.evaluations },
)

unfoldable pub withdraw_tx : Str → Str → Tx Db (Unit {0})
withdraw_tx w id = do
  affected ← statement (λ (db : Db). ok (withdraw_rows w id db))
  if affected then pure tt else raise not_found

-- `Store.WithdrawDecisionEvaluation`
unfoldable pub withdraw : Env → Str → Str → Db → Faults → Result (Unit {0}) × Db
withdraw env ws id db fs =
    if not (valid_uuid ws) || not (valid_uuid id)
    then (err invalid, db)
    else run (uuid_tx (env.uuid ws) (λ w. uuid_tx (env.uuid id) (λ i. withdraw_tx w i))) db fs

-- expires_at<=now() AND payload IS NOT NULL
unfoldable pub stale : ℕ → Evaluation → Bool
stale now e = leb e.expires_at now && is_some e.payload

-- `Store.PurgeDecisionEvaluations`
unfoldable pub purge : ℕ → Db → Faults → Result (Unit {0}) × Db
purge now = run (
    exec
      (λ (db : Db). record db { evaluations = map_where (stale now) withdrawn_row db.evaluations }))

unfoldable pub generated_in : Str → Evaluation → Bool
generated_in w e = str_eq e.workspace_id w && is_generated e.review_status

unfoldable pub policy_tx : ℕ → Str → Str → Bool → Tx Db (Unit {0})
policy_tx now w owner enabled = do
  exec (λ (db : Db). db)
  exec (λ (db : Db). record db { policies = put_policy now w owner enabled db.policies })
  if not enabled
      then exec (λ (db : Db). record db {
        evaluations = map_where (generated_in w) withdrawn_row db.evaluations;
      })
      else pure tt

-- `Store.SetDecisionTrainingPolicy`
unfoldable pub set_policy : Env → ℕ → Str → Str → Bool → Db → Faults → Result (Unit {0}) × Db
set_policy env now ws owner enabled db fs =
    if not (valid_uuid ws)
    then (err invalid, db)
    else transact (uuid_tx (env.uuid ws) (λ w. policy_tx now w owner enabled)) db fs
