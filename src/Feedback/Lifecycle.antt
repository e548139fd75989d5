-- ===== src/Feedback/Lifecycle.antt =====
-- Runs of the review queue (internal/store/decision_feedback.go): every operation that writes it,
-- one behind the other, at transaction times that do not run backwards.
use kasane_mcp.Prelude.{ℕ, ◌≤◌, Bool, [], Str, arith}
use kasane_mcp.Tx.{Faults}
use kasane_mcp.Feedback.Rows.{Env, Db, count_where}
use kasane_mcp.Feedback.{save, review, withdraw, purge, set_policy}
use kasane_mcp.Feedback.Lawful.{IsLawful, IsLawful-later}
use kasane_mcp.Feedback.Keeps.{
  save-IsLawful, review-IsLawful, withdraw-IsLawful, purge-IsLawful, set_policy-IsLawful,
}

abbrev pub empty_db : Db
empty_db = record { evaluations = []; policies = [] }

-- One operation whose transaction began at `now`.
pub data Step (env : Env) (now : ℕ) (db : Db) : Db → Type 0 where
  saves :
      (clock : ℕ) (ws id hash actor payload : Str) (days : ℕ) (fs : Faults)
      → Step env now db (save env now clock ws id hash actor payload days db fs).1
  reviews :
      (ws id actor text : Str) (fs : Faults)
      → Step env now db (review env now ws id actor text db fs).1
  withdraws : (ws id : Str) (fs : Faults) → Step env now db (withdraw env ws id db fs).1
  purges : (fs : Faults) → Step env now db (purge now db fs).1
  sets_policy :
      (ws owner : Str) (enabled : Bool) (fs : Faults)
      → Step env now db (set_policy env now ws owner enabled db fs).1

-- A run from the empty queue whose last transaction began at the given time.
pub data Reach (env : Env) : ℕ → Db → Type 0 where
  start : (now : ℕ) → Reach env now empty_db
  step :
      {now later : ℕ} {db db' : Db}
      → Reach env now db
      → now ≤ later
      → Step env later db db'
      → Reach env later db'

Step-IsLawful :
    {env : Env} {now : ℕ} {db db' : Db} → IsLawful now db → Step env now db db' → IsLawful now db'
Step-IsLawful {env} {now} {db} h (saves clock ws id hash actor payload days fs) =
    save-IsLawful env now clock ws id hash actor payload days db fs h
Step-IsLawful {env} {now} {db} h (reviews ws id actor text fs) =
    review-IsLawful env now ws id actor text db fs h
Step-IsLawful {env} {now} {db} h (withdraws ws id fs) = withdraw-IsLawful env now ws id db fs h
Step-IsLawful {env} {now} {db} h (purges fs) = purge-IsLawful now db fs h
Step-IsLawful {env} {now} {db} h (sets_policy ws owner enabled fs) =
    set_policy-IsLawful env now ws owner enabled db fs h

empty_db-IsLawful : (now : ℕ) → IsLawful now empty_db
unfolding count_where
empty_db-IsLawful now = record { rows = tt; quota = λ w. omega arith }

-- In every run of save, review, withdraw, purge and set-policy from the empty queue, at transaction
-- times that do not run backwards: a withdrawn evaluation keeps no payload and no review, an
-- unreviewed one has a payload but no review and no permission, an agent-generated one a payload and
-- a permission but no review, a reviewed one all three; and at the time of the last transaction no
-- workspace has more than 500 live evaluations.
pub feedback-IsLawful : {env : Env} {now : ℕ} {db : Db} → Reach env now db → IsLawful now db
feedback-IsLawful (start now) = empty_db-IsLawful now
feedback-IsLawful (step r le s) = Step-IsLawful (IsLawful-later le (feedback-IsLawful r)) s
