-- ===== src/Server/Evaluations.antt =====
-- The review queue's handlers: `evaluateForReview`, the review, the withdrawal, the export, the
-- permissions and the training policy of internal/server/decision_feedback.go. JSON, SHA-256 and ZIP
-- are parameters.
pub mod Exports
pub mod Published
use text.Mathlib.Text.{◌==◌ as text_eq}
use kasane_mcp.Prelude.{
  ℕ, Bool, true, false, ◌&&◌, ◌||◌, not, List, [], ◌∷◌, map, Option, none, some, Str, String,
  str_eq, ltb, ltb_ℤ, ◌==◌, is_some, ℤ, pos, if◌then◌else◌, Result, ok, err, Error, invalid,
  conflict, unavailable,
}
use kasane_mcp.GoText.{len}
use kasane_mcp.Tx.{Faults}
use kasane_mcp.Decision.{Rule, Request, Response, Decision}
use kasane_mcp.Feedback.Rows.{Env, Status, Evaluation, Db}
use kasane_mcp.Feedback.{save, review, withdraw, set_policy}
use kasane_mcp.Feedback.Reads.{
  decision_evaluation, decision_evaluations, decision_permissions, training_policy,
}
use kasane_mcp.Server.Http.{Reply, reply, failure_status}
use kasane_mcp.Server.Access.{Identity}
use kasane_mcp.Server.Candidates.{RelevanceResult}
use kasane_mcp.Server.Judgements.{
  RuleReference, RelevanceInput, Judgement, EvaluationInput, valid_origin_label,
  validate_judgements, check_evaluation,
}

pub record Payload : Type 0 where
  pub source_group : Str
  pub source_origin : String
  pub agent_model : Str
  pub label_author : String
  pub request : Request
  pub result : RelevanceResult
  pub judgements : List Judgement

pub record Review : Type 0 where
  pub shared_training_allowed : Bool
  pub sensitive_content_reviewed : Bool
  pub source_origin : String
  pub judgements : List Judgement

-- json.Marshal and json.Unmarshal for the values that are stored (a review is read over the values
-- that it has before), and the hexadecimal SHA-256.
pub record Codec : Type 0 where
  pub encode_input : EvaluationInput → Option Str
  pub encode_payload : Payload → Option Str
  pub decode_payload : Str → Option Payload
  pub encode_review : Review → Option Str
  pub decode_review : Review → Str → Option Review
  pub fingerprint : Str → Str

pub record Receipt : Type 0 where
  pub evaluation_id : Str
  pub decision_id : Str
  pub review_status : Status
  pub ready_for_export : Bool
  pub expires_at : ℕ
  pub result : RelevanceResult

-- v.ReviewStatus == "reviewed" || v.ReviewStatus == "agent_generated"
abbrev pub labelled : Status → Bool
labelled Status.unreviewed = false
labelled Status.agent_generated = true
labelled Status.reviewed = true
labelled Status.withdrawn = false

abbrev pub or_unavailable : {A : Type 0} → Option A → Result A
or_unavailable none = err unavailable
or_unavailable (some a) = ok a

abbrev pub decoded : {A : Type 0} → (Str → Option A) → Option Str → Result A
decoded decode none = err unavailable
decoded decode (some text) = or_unavailable (decode text)

-- `decodeEvaluation`; no JSON is an error.
unfoldable pub decode_evaluation : Codec → Evaluation → Result Payload
decode_evaluation codec row = decoded codec.decode_payload row.payload

receipt_of : ℕ → Evaluation → Result Payload → Result Receipt
receipt_of clock row (err e) = err e
receipt_of clock row (ok p) = ok (record {
  evaluation_id = row.id;
  decision_id = p.result.response.decision_id;
  review_status = row.review_status;
  ready_for_export = labelled row.review_status && ltb clock row.expires_at;
  expires_at = row.expires_at;
  result = p.result;
})

-- `evaluationResult`
unfoldable pub evaluation_result : Codec → ℕ → Evaluation → Result Receipt
unfolding receipt_of
evaluation_result codec clock row = receipt_of clock row (decode_evaluation codec row)

module _ (env : Env) (codec : Codec) (days now clock : ℕ) (id : Identity)
    (in' : EvaluationInput) where
  saved : Result Evaluation × Db → Result Receipt × Db
  saved (err e, db) = (err e, db)
  saved (ok row, db) = (evaluation_result codec clock row, db)

  store_payload : Str → Db → Faults → Option Str → Result Receipt × Db
  unfolding saved
  store_payload hash db fs none = (err unavailable, db)
  store_payload hash db fs (some payload) =
      saved (save env now clock id.workspace in'.evaluation_id hash id.key_id payload days db fs)

  payload_of : Request → RelevanceResult → Payload
  payload_of request result = record {
    source_group = in'.source_group;
    source_origin = in'.source_origin;
    agent_model = in'.agent_model;
    label_author = "agent";
    request = request;
    result = result;
    judgements = in'.judgements;
  }

  -- Behind the prediction: the request with the texts that the server has read.
  predicted : Str → Db → Faults → Result (Request × RelevanceResult) → Result Receipt × Db
  unfolding store_payload payload_of
  predicted hash db fs (err e) = (err e, db)
  predicted hash db fs (ok (request, result)) =
      store_payload hash db fs (codec.encode_payload (payload_of request result))

  -- Behind the SELECT of the evaluation; `predict` is `a.relevance` with the request that it sends.
  unfoldable pub after_read :
      Str
      → Result (Request × RelevanceResult)
      → Db
      → Faults
      → Result Evaluation
      → Result Receipt × Db
  unfolding predicted
  after_read hash predict db fs (ok old) =
      if not (str_eq old.request_hash hash) || not (str_eq old.submitted_by id.key_id)
      then (err conflict, db)
      else (evaluation_result codec clock old, db)
  after_read hash predict db fs (err Error.not_found) = predicted hash db fs predict
  after_read hash predict db fs (err Error.invalid) = (err Error.invalid, db)
  after_read hash predict db fs (err Error.conflict) = (err Error.conflict, db)
  after_read hash predict db fs (err Error.forbidden) = (err Error.forbidden, db)
  after_read hash predict db fs (err Error.unavailable) = (err Error.unavailable, db)

  hashed :
      Result (Request × RelevanceResult) → Db → Faults → Faults → Option Str → Result Receipt × Db
  unfolding after_read
  hashed predict db read fs none = (err invalid, db)
  hashed predict db read fs (some raw) =
      if ltb 1048576 (len raw)
      then (err invalid, db)
      else after_read (codec.fingerprint raw) predict db fs
          (decision_evaluation env now id.workspace in'.evaluation_id db read).0

  checked :
      Result (Unit {0})
      → Result (Request × RelevanceResult)
      → Db
      → Faults
      → Faults
      → Result Receipt × Db
  unfolding hashed
  checked (err e) predict db read fs = (err e, db)
  checked (ok t) predict db read fs =
      hashed predict db read fs (codec.encode_input (record in' { workspace_id = id.workspace }))

  -- `App.evaluateForReview`; `read` and `fs` are the failures of the SELECT and of the save.
  unfoldable pub evaluate_for_review :
      Result (Request × RelevanceResult) → Db → Faults → Faults → Result Receipt × Db
  unfolding checked
  evaluate_for_review = checked (check_evaluation days in')

-- A rule reference with the ID alone.
reference_of : Rule → RuleReference
reference_of r = record { expected_revision = pos 0; id = r.id; required = false; paths = [] }

module _ (env : Env) (codec : Codec) (now clock : ℕ) (username ws evaluation : Str) where
  store_review : Evaluation → Db → Faults → Option Str → Reply Evaluation × Db
  store_review row db fs none = (Reply.failed (failure_status unavailable), db)
  store_review row db fs (some text) =
      reply 200 (review env now row.workspace_id row.id username text db fs)

  labels_checked : Review → Evaluation → Db → Faults → Result (Unit {0}) → Reply Evaluation × Db
  unfolding store_review
  labels_checked in' row db fs (err e) = (Reply.failed (failure_status e), db)
  labels_checked in' row db fs (ok t) = store_review row db fs (codec.encode_review in')

  payload_read : Review → Evaluation → Db → Faults → Result Payload → Reply Evaluation × Db
  unfolding labels_checked reference_of
  payload_read in' row db fs (err e) = (Reply.failed (failure_status e), db)
  payload_read in' row db fs (ok p) =
      labels_checked in' row db fs
        (validate_judgements (map reference_of p.request.rules) in'.judgements)

  row_read : Review → Db → Faults → Result Evaluation → Reply Evaluation × Db
  unfolding payload_read
  row_read in' db fs (err e) = (Reply.failed (failure_status e), db)
  row_read in' db fs (ok row) = payload_read in' row db fs (decode_evaluation codec row)

  -- `App.reviewDecisionEvaluation`, with the decoded body.
  unfoldable pub review_evaluation : Option Review → Db → Faults → Faults → Reply Evaluation × Db
  unfolding row_read
  review_evaluation none db read fs = (Reply.failed 400, db)
  review_evaluation (some in') db read fs =
      if not in'.shared_training_allowed
        || not in'.sensitive_content_reviewed
        || not (valid_origin_label in'.source_origin)
      then (Reply.failed 400, db)
      else row_read in' db fs (decision_evaluation env now ws evaluation db read).0

-- `App.withdrawDecisionEvaluation`
unfoldable pub withdraw_evaluation : Env → Str → Str → Db → Faults → Reply (Unit {0}) × Db
withdraw_evaluation env ws id db fs = reply 200 (withdraw env ws id db fs)

-- `App.listDecisionEvaluations`; `offset` is the text of the parameter as strconv.Atoi reads it, if
-- it is not empty.
list_from :
    Env → (Str → Str → Bool) → ℕ → Str → Option ℤ → Db → Faults → Reply (List Evaluation) × Db
list_from env before now ws none db fs = (Reply.failed (failure_status invalid), db)
list_from env before now ws (some n) db fs =
    reply 200 (decision_evaluations env before now ws n db fs)

unfoldable pub list_evaluations :
    Env
    → (Str → Str → Bool)
    → ℕ
    → Str
    → Option (Option ℤ)
    → Db
    → Faults
    → Reply (List Evaluation) × Db
unfolding list_from
list_evaluations env before now ws none = list_from env before now ws (some (pos 0))
list_evaluations env before now ws (some n) = list_from env before now ws n

policy_set : Env → Str → Faults → Result (Unit {0}) × Db → Reply Bool × Db
policy_set env ws fs (err e, db) = (Reply.failed (failure_status e), db)
policy_set env ws fs (ok t, db) = reply 200 (training_policy env ws db fs)

-- `App.decisionTrainingPolicy` on POST, with the value of the decoded body, if it has one.
unfoldable pub post_policy :
    Env → ℕ → ℕ → Str → Str → Option (Option Bool) → Db → Faults → Faults → Reply Bool × Db
unfolding policy_set
post_policy env now days ws username none db fs read = (Reply.failed 400, db)
post_policy env now days ws username (some none) db fs read = (Reply.failed 400, db)
post_policy env now days ws username (some (some enabled)) db fs read =
    if enabled && (days == 0)
    then (Reply.failed 400, db)
    else policy_set env ws read (set_policy env now ws username enabled db fs)

-- … and on GET.
unfoldable pub get_policy : Env → Str → Db → Faults → Reply Bool × Db
get_policy env ws db fs = reply 200 (training_policy env ws db fs)
