-- ===== src/Server/Evaluations/Published.antt =====
-- What `exportDecisionEvaluation` of internal/server/decision_feedback.go publishes.
use kasane_mcp.Prelude.{
  ℕ, ◌<◌, ◌≡◌, refl, Bool, true, false, ◌||◌, not, List, Option, none, some, Str, ltb, is_some,
  if◌then◌else◌, Result, ok, err, arith, Bool-cases, inl, inr,
}
use kasane_mcp.Tx.{Faults}
use kasane_mcp.Feedback.Rows.{Env, Evaluation, Db, is_generated}
use kasane_mcp.Feedback.Reads.{decision_evaluation}
use kasane_mcp.Server.Http.{Reply}
use kasane_mcp.Server.Evaluations.{Payload, Review, Codec, labelled, decode_evaluation}
use kasane_mcp.Server.Evaluations.Exports.{
  Event, archived, agent_review, review_allows, reviewed_archive, row_review, payload_archive,
  evaluation_archive, published, archive_built, row_found, export_evaluation,
}

-- The agent's own labels, or a person's review that allows the use and says that sensitive content
-- was reviewed.
abbrev pub Labels : Bool → Codec → Evaluation → Payload → Review → Type 0
Labels true codec row p in' = in' ≡ agent_review p
Labels false codec row p in' = (row_review codec row p ≡ some in') × (review_allows in' ≡ true)

-- Why an evaluation may be exported, as these events.
pub record Exportable (codec : Codec) (clock : ℕ) (row : Evaluation) (events : List Event)
    : Type 0 where
  pub labelled_row : labelled row.review_status ≡ true
  pub granted : is_some row.permission_granted_at ≡ true
  pub live : clock < row.expires_at
  pub payload : Payload
  pub readable : decode_evaluation codec row ≡ ok payload
  pub review : Review
  pub labels : Labels (is_generated row.review_status) codec row payload review
  pub content : archived row payload review ≡ ok events

reviewed_archive-inv :
    (row : Evaluation) (p : Payload) (o : Option Review) (events : List Event)
    → reviewed_archive row p o ≡ ok events
    → (in' : Review) × (o ≡ some in')
      × (review_allows in' ≡ true)
      × (archived row p in' ≡ ok events)
unfolding reviewed_archive
reviewed_archive-inv row p none events h = absurd cc
reviewed_archive-inv row p (some in') events h = (in', refl, ground arith, ground arith)

Labels-inv :
    (codec : Codec) (row : Evaluation) (p : Payload) (generated : Bool) (events : List Event)
    → (if generated
        then archived row p (agent_review p)
        else reviewed_archive row p (row_review codec row p))
      ≡ ok events
    → (in' : Review) × Labels generated codec row p in' × (archived row p in' ≡ ok events)
Labels-inv codec row p true events h = (agent_review p, refl, h)
Labels-inv codec row p false events h =
    let inv = reviewed_archive-inv row p (row_review codec row p) events h in
    (inv.0, (inv.1, inv.2), inv.3)

payload_archive-inv :
    (codec : Codec) (row : Evaluation) (r : Result Payload) (events : List Event)
    → payload_archive codec row r ≡ ok events
    → (p : Payload) × (r ≡ ok p)
      × ((in' : Review) × Labels (is_generated row.review_status) codec row p in'
          × (archived row p in' ≡ ok events))
unfolding payload_archive
payload_archive-inv codec row (err e) events h = absurd cc
payload_archive-inv codec row (ok p) events h =
    (p, refl, Labels-inv codec row p (is_generated row.review_status) events h)

evaluation_archive-Exportable :
    (codec : Codec) (clock : ℕ) (row : Evaluation) (events : List Event)
    → evaluation_archive codec clock row ≡ ok events
    → Exportable codec clock row events
unfolding evaluation_archive
evaluation_archive-Exportable codec clock row events h =
    elim (Bool-cases (
      not (labelled row.review_status)
      || not (is_some row.permission_granted_at)
      || not (ltb clock row.expires_at))) [
        | inl closed ↦ absurd (ground arith)
        | inr opened ↦
            let inv =
              payload_archive-inv codec row (decode_evaluation codec row) events (ground arith) in
            record {
              labelled_row = ground arith;
              granted = ground arith;
              live = ground arith;
              payload = inv.0;
              readable = inv.1;
              review = inv.2.0;
              labels = inv.2.1;
              content = inv.2.2;
            }
      ]

published-inv :
    (events events' : List Event) (r : Result Evaluation) (status : ℕ)
    → published events r ≡ Reply.answered status events'
    → (latest : Evaluation) × (r ≡ ok latest)
      × (labelled latest.review_status ≡ true)
      × (events ≡ events')
unfolding published
published-inv events events' (err e) status h = absurd cc
published-inv events events' (ok latest) status h = (latest, refl, ground arith, ground arith)

-- What was read twice: the row that is exported, and the row as it was behind the archive.
pub record Published (env : Env) (codec : Codec) (now later clock : ℕ) (ws id : Str) (db db' : Db)
    (read fs : Faults) (events : List Event) : Type 0 where
  pub row : Evaluation
  pub first : (decision_evaluation env now ws id db read).0 ≡ ok row
  pub exportable : Exportable codec clock row events
  pub latest : Evaluation
  pub second : (decision_evaluation env later row.workspace_id row.id db' fs).0 ≡ ok latest
  pub still_labelled : labelled latest.review_status ≡ true

module _ (env : Env) (codec : Codec) (now later clock : ℕ) (ws id : Str) (db db' : Db) (fs : Faults)
    (events : List Event) (status : ℕ) where
  built-inv :
      (row : Evaluation) (r : Result (List Event))
      → archive_built env codec now later clock ws id db db' row fs r ≡ Reply.answered status events
      → (r ≡ ok events)
        × ((latest : Evaluation) × ((decision_evaluation env later row.workspace_id row.id db' fs).0
              ≡ ok latest)
            × (labelled latest.review_status ≡ true))
  unfolding archive_built
  built-inv row (err e) h = absurd cc
  built-inv row (ok built) h =
      let inv = published-inv built events _ status h in (cc inv.3, (inv.0, inv.1, inv.2))

  found-inv :
      (r : Result Evaluation)
      → row_found env codec now later clock ws id db db' fs r ≡ Reply.answered status events
      → (row : Evaluation) × (r ≡ ok row)
        × (archive_built env codec now later clock ws id db db' row fs
              (evaluation_archive codec clock row)
            ≡ Reply.answered status events)
  unfolding row_found
  found-inv (err e) h = absurd cc
  found-inv (ok row) h = (row, refl, h)

  -- Whatever statements fail and whatever happened to the tables in between: events are exported only
  -- of a row that the store returned as reviewed or agent-generated, with a permission, not expired
  -- and with a readable payload; they are labelled by the agent's judgements if the row is
  -- agent-generated, and else by a person's review that allows the training and says that sensitive
  -- content was reviewed; and the row was still reviewed or agent-generated when it was read again.
  pub export_evaluation-Published :
      (read : Faults)
      → export_evaluation env codec now later clock ws id db db' read fs
        ≡ Reply.answered status events
      → Published env codec now later clock ws id db db' read fs events
  unfolding export_evaluation
  export_evaluation-Published read h =
      let found = found-inv (decision_evaluation env now ws id db read).0 h in
      let built = built-inv found.0 (evaluation_archive codec clock found.0) found.2 in
      record {
        row = found.0;
        first = found.1;
        exportable = evaluation_archive-Exportable codec clock found.0 events built.0;
        latest = built.1.0;
        second = built.1.1;
        still_labelled = built.1.2;
      }
