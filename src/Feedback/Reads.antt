-- ===== src/Feedback/Reads.antt =====
-- The reads of internal/store/decision_feedback.go: `DecisionEvaluation`, `DecisionEvaluations`,
-- `DecisionEvaluationPermissions` and `DecisionTrainingPolicy`.
use kasane_mcp.Prelude.{
  ℕ, Bool, ◌&&◌, ◌||◌, not, List, [], ◌∷◌, Option, none, some, Str, str_eq, ltb, ltb_ℤ, ◌==◌,
  is_some, take, drop, pos, pos_part, ℤ, if◌then◌else◌, Result, ok, err, invalid, not_found,
}
use kasane_mcp.Tx.{Faults, statement, query, run}
use kasane_mcp.Core.Ids.{valid_uuid}
use kasane_mcp.Feedback.Rows.{Env, Evaluation, Db, of_pair, find_where}
use kasane_mcp.Feedback.{uuid_tx, automatic}

abbrev pub unless_missing : Option Evaluation → Db → Result (Evaluation × Db)
unless_missing none db = err not_found
unless_missing (some e) db = ok (e, db)

-- payload IS NOT NULL AND expires_at>now()
unfoldable pub present : ℕ → Str → Str → Evaluation → Bool
present now w id e = of_pair w id e && is_some e.payload && ltb now e.expires_at

unfoldable pub evaluation_row : ℕ → Str → Str → Db → Result (Evaluation × Db)
evaluation_row now w id db = unless_missing (find_where (present now w id) db.evaluations) db

-- `Store.DecisionEvaluation`
unfoldable pub decision_evaluation : Env → ℕ → Str → Str → Db → Faults → Result Evaluation × Db
decision_evaluation env now ws id db fs =
    if not (valid_uuid ws) || not (valid_uuid id)
    then (err invalid, db)
    else run
        (uuid_tx (env.uuid ws)
          (λ w. uuid_tx (env.uuid id) (λ i. statement (evaluation_row now w i))))
        db fs

-- The rows with a property, by an order.
insert_row : (Evaluation → Evaluation → Bool) → Evaluation → List Evaluation → List Evaluation
insert_row less e [] = e ∷ []
insert_row less e (d ∷ es) =
    let rest = insert_row less e es in if less e d then e ∷ d ∷ es else d ∷ rest

unfoldable pub ordered_where :
    (Evaluation → Evaluation → Bool) → (Evaluation → Bool) → List Evaluation → List Evaluation
unfolding insert_row
ordered_where less p [] = []
ordered_where less p (e ∷ es) =
    let rest = ordered_where less p es in if p e then insert_row less e rest else rest

-- workspace_id=$1 AND payload IS NOT NULL AND expires_at>now()
in_queue : ℕ → Str → Evaluation → Bool
in_queue now w e = str_eq e.workspace_id w && is_some e.payload && ltb now e.expires_at

-- created_at DESC,id; `before` is the order of the IDs.
newest : (Str → Str → Bool) → Evaluation → Evaluation → Bool
newest before a b =
    ltb b.created_at a.created_at || (a.created_at == b.created_at && before a.id b.id)

unfoldable pub queue_page : (Str → Str → Bool) → ℕ → ℤ → Str → Db → List Evaluation
unfolding in_queue newest
queue_page before now offset w db =
    take 10 (drop (pos_part offset) (ordered_where (newest before) (in_queue now w) db.evaluations))

-- `Store.DecisionEvaluations`
unfoldable pub decision_evaluations :
    Env → (Str → Str → Bool) → ℕ → Str → ℤ → Db → Faults → Result (List Evaluation) × Db
decision_evaluations env before now ws offset db fs =
    if not (valid_uuid ws) || ltb_ℤ offset (pos 0) || ltb_ℤ (pos 100000) offset
    then (err invalid, db)
    else run (uuid_tx (env.uuid ws) (λ w. query (queue_page before now offset w))) db fs

granted_in : Str → Evaluation → Bool
granted_in w e = str_eq e.workspace_id w && is_some e.permission_granted_at

-- `Store.DecisionEvaluationPermissions`, of whose rows only the ID, the status, the grant and the
-- expiry are read.
unfoldable pub decision_permissions :
    Env → (Str → Str → Bool) → Str → Db → Faults → Result (List Evaluation) × Db
unfolding granted_in
decision_permissions env before ws db fs =
    if not (valid_uuid ws)
    then (err invalid, db)
    else run
        (uuid_tx (env.uuid ws) (λ w.
          query
            (λ (db : Db). ordered_where (λ a b. before a.id b.id) (granted_in w) db.evaluations)))
        db fs

-- `Store.DecisionTrainingPolicy`
unfoldable pub training_policy : Env → Str → Db → Faults → Result Bool × Db
training_policy env ws db fs =
    if not (valid_uuid ws)
    then (err invalid, db)
    else run (uuid_tx (env.uuid ws) (λ w. query (automatic w))) db fs
