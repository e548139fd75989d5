-- ===== src/Server/Evaluations/Exports.antt =====
-- `permissionFor`, `decisionPermissions`, `evaluationArchive` and `exportDecisionEvaluation` of
-- internal/server/decision_feedback.go. Of the ZIP archive the events are modelled.
use text.Mathlib.Text.{◌==◌ as text_eq}
use kasane_mcp.Prelude.{
  ℕ, ◌/◌, Bool, true, false, ◌&&◌, ◌||◌, not, List, [], ◌∷◌, map, Option, none, some, Str, String,
  str_eq, ltb, is_some, if◌then◌else◌, Result, ok, err, conflict, unavailable,
}
use kasane_mcp.Tx.{Faults}
use kasane_mcp.Core.Types.{Memory}
use kasane_mcp.Decision.{Decision}
use kasane_mcp.Feedback.Rows.{Env, Status, Evaluation, Db, is_generated}
use kasane_mcp.Feedback.Reads.{decision_evaluation, decision_permissions}
use kasane_mcp.Server.Http.{Reply, reply, failure_status}
use kasane_mcp.Server.Judgements.{Judgement}
use kasane_mcp.Server.Evaluations.{
  Payload, Review, Codec, labelled, or_unavailable, decode_evaluation,
}

pub record Permission : Type 0 where
  pub id : Str
  pub workspace_group : Str
  pub project_group : Str
  pub granted_at : ℕ
  pub expires_at : ℕ
  pub withdrawn : Bool

-- .Unix(), and 0 for no time.
abbrev seconds : Option ℕ → ℕ
seconds none = 0
seconds (some t) = t / 1000000

-- `permissionFor`
unfoldable pub permission_for : ℕ → Evaluation → Permission
permission_for clock row = record {
  id = row.id;
  workspace_group = row.workspace_id;
  project_group = row.workspace_id;
  granted_at = seconds row.permission_granted_at;
  expires_at = seconds (some row.expires_at);
  withdrawn = not (labelled row.review_status) || not (ltb clock row.expires_at);
}

permissions_of : ℕ → Result (List Evaluation) × Db → Result (List Permission) × Db
permissions_of clock (err e, db) = (err e, db)
permissions_of clock (ok rows, db) = (ok (map (permission_for clock) rows), db)

-- `App.decisionPermissions`
unfoldable pub permissions :
    Env → (Str → Str → Bool) → ℕ → Str → Db → Faults → Reply (List Permission) × Db
unfolding permissions_of
permissions env before clock ws db fs =
    reply 200 (permissions_of clock (decision_permissions env before ws db fs))

-- The labels of the review, by rule; the last one of a rule counts, and "" stands for none.
unfoldable pub label_of : String → Str → List Judgement → String
label_of label rule [] = label
label_of label rule (j ∷ js) = label_of (if str_eq j.rule_id rule then j.label else label) rule js

unfoldable pub prediction : Decision → String
prediction d =
    if d.include
    then "relevant"
    else if text_eq d.reason "abstained"
    then "insufficient_context"
    else "not_relevant"

pub record Event : Type 0 where
  pub rule_id : Str
  pub rule_revision : ℕ
  pub prediction : String
  pub feedback_label : String
  pub review_status : Status
  pub permission_record_id : Str

unfoldable pub event_of : Evaluation → List Judgement → Memory → Decision → Event
event_of row labels rule d = record {
  rule_id = rule.id;
  rule_revision = rule.revision;
  prediction = prediction d;
  feedback_label = label_of "" rule.id labels;
  review_status = row.review_status;
  permission_record_id = row.id;
}

-- The loop over the decisions; `none` is the index out of range.
unfoldable pub events_of :
    Evaluation → List Judgement → List Memory → List Decision → Option (List Event)
events_of row labels rules [] = some []
events_of row labels [] (d ∷ ds) = none
events_of row labels (rule ∷ rules) (d ∷ ds) = elim (events_of row labels rules ds) [
  | none ↦ none
  | some events ↦ some (event_of row labels rule d ∷ events)
]

unfoldable pub archived : Evaluation → Payload → Review → Result (List Event)
archived row p in' =
    or_unavailable (events_of row in'.judgements p.result.rules p.result.response.decisions)

-- The review before the row's own is read.
abbrev pub agent_review : Payload → Review
agent_review p = record {
  shared_training_allowed = true;
  sensitive_content_reviewed = false;
  source_origin = p.source_origin;
  judgements = p.judgements;
}

abbrev pub review_allows : Review → Bool
review_allows in' = in'.shared_training_allowed && in'.sensitive_content_reviewed

unfoldable pub reviewed_archive : Evaluation → Payload → Option Review → Result (List Event)
reviewed_archive row p none = err unavailable
reviewed_archive row p (some in') =
    if not in'.shared_training_allowed || not in'.sensitive_content_reviewed
    then err conflict
    else archived row p in'

-- The row's review; NULL is no JSON.
abbrev pub row_review : Codec → Evaluation → Payload → Option Review
row_review codec row p = elim row.review [
  | none ↦ none
  | some text ↦ codec.decode_review (agent_review p) text
]

unfoldable pub payload_archive : Codec → Evaluation → Result Payload → Result (List Event)
payload_archive codec row (err e) = err e
payload_archive codec row (ok p) =
    if is_generated row.review_status
    then archived row p (agent_review p)
    else reviewed_archive row p (row_review codec row p)

-- `evaluationArchive`
unfoldable pub evaluation_archive : Codec → ℕ → Evaluation → Result (List Event)
evaluation_archive codec clock row =
    if not (labelled row.review_status)
      || not (is_some row.permission_granted_at)
      || not (ltb clock row.expires_at)
    then err conflict
    else payload_archive codec row (decode_evaluation codec row)

-- Behind the archive: the row is read once more.
unfoldable pub published : List Event → Result Evaluation → Reply (List Event)
published events (err e) = Reply.failed (failure_status e)
published events (ok latest) =
    if labelled latest.review_status
    then Reply.answered 200 events
    else Reply.failed (failure_status conflict)

module _ (env : Env) (codec : Codec) (now later clock : ℕ) (ws id : Str) (db db' : Db) where
  unfoldable pub archive_built : Evaluation → Faults → Result (List Event) → Reply (List Event)
  archive_built row fs (err e) = Reply.failed (failure_status e)
  archive_built row fs (ok events) =
      published events (decision_evaluation env later row.workspace_id row.id db' fs).0

  unfoldable pub row_found : Faults → Result Evaluation → Reply (List Event)
  row_found fs (err e) = Reply.failed (failure_status e)
  row_found fs (ok row) = archive_built row fs (evaluation_archive codec clock row)

  -- `App.exportDecisionEvaluation`: the tables may have changed to `db'` before the second read.
  unfoldable pub export_evaluation : Faults → Faults → Reply (List Event)
  export_evaluation read fs = row_found fs (decision_evaluation env now ws id db read).0
