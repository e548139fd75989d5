-- ===== src/Feedback/Keeps.antt =====
-- The operations of internal/store/decision_feedback.go, one by one, on a lawful review queue.
use kasane_mcp.Prelude.{
  ℕ, ◌<◌, ◌≡◌, refl, subst, Bool, true, false, ◌||◌, not, Option, none, some, Option-cases, inl,
  inr, Str, str_eq, str_eq_iff, is_some, ltb, leb, arith, if-rule, Result, ok, conflict, not_found,
  unavailable,
}
use kasane_mcp.Tx.{Tx, Faults}
use kasane_mcp.Tx.Rules.{
  Sat, Sat-pure, Sat-raise, Sat-if, Sat-option, Sat-step, Sat-query, Sat-exec, Sat-exec_last,
  Sat-statement, transact-rule, run-rule,
}
use kasane_mcp.Core.Ids.{valid_uuid}
use kasane_mcp.Feedback.Rows.{
  Env, Evaluation, Db, of_pair, find_where, map_where, count_where, live,
}
use kasane_mcp.Feedback.Lawful.{Lawful, IsLawful, map_where-IsLawful}
use kasane_mcp.Feedback.{
  uuid_tx, new_evaluation, again_tx, insert_tx, save_tx, save, reviewable, reviewed_row,
  review_rows, review, withdrawn_row, withdraw_rows, withdraw_tx, withdraw, stale, purge,
  generated_in, policy_tx, set_policy, automatic,
}

uuid_tx-Sat :
    {A : Type 0} {Q : A → Db → Type 0} (o : Option Str) (k : Str → Tx Db A) (db : Db)
    → ((w : Str) → Sat (k w) db Q)
    → Sat (uuid_tx o k) db Q
unfolding uuid_tx
uuid_tx-Sat none k db h = Sat-raise unavailable db
uuid_tx-Sat (some w) k db h = h w

withdrawn_row-Lawful : (e : Evaluation) → Lawful (withdrawn_row e)
unfolding withdrawn_row
withdrawn_row-Lawful e = (refl, refl)

withdrawn_row-live : (now : ℕ) (w : Str) (e : Evaluation) → live now w (withdrawn_row e) ≡ false
unfolding withdrawn_row live
withdrawn_row-live now w e = ground arith

-- Rows that are withdrawn.
withdrawn-IsLawful :
    {now : ℕ} {db : Db} (p : Evaluation → Bool)
    → IsLawful now db
    → IsLawful now (record db { evaluations = map_where p withdrawn_row db.evaluations })
withdrawn-IsLawful {now} p =
    map_where-IsLawful p withdrawn_row (λ e _ _. withdrawn_row-Lawful e)
      (λ w e _ h. absurd (cc (h, withdrawn_row-live now w e)))

new_evaluation-Lawful :
    (env : Env) (now : ℕ) (w id hash actor payload : Str) (days : ℕ) (auto : Bool)
    → Lawful (new_evaluation env now w id hash actor payload days auto)
unfolding new_evaluation
new_evaluation-Lawful env now w id hash actor payload days true = (refl, refl, refl)
new_evaluation-Lawful env now w id hash actor payload days false = (refl, refl, refl)

new_evaluation-live :
    (env : Env) (now : ℕ) (v w id hash actor payload : Str) (days : ℕ) (auto : Bool)
    → live now v (new_evaluation env now w id hash actor payload days auto) ≡ true
    → v ≡ w
unfolding new_evaluation live
new_evaluation-live env now v w id hash actor payload days auto h = ground (arith, str_eq_iff w v)

module _ (env : Env) (now clock : ℕ) (db : Db) (lawful : IsLawful now db) where
  again_tx-Sat :
      (hash actor : Str) (old : Evaluation)
      → Sat (again_tx clock hash actor old) db (λ _ db'. IsLawful now db')
  unfolding again_tx
  again_tx-Sat hash actor old =
      Sat-if (not (str_eq old.request_hash hash) || not (str_eq old.submitted_by actor)) db
        (λ _. Sat-raise conflict db)
        (λ _.
          Sat-if (not (is_some old.payload) || not (ltb clock old.expires_at)) db
            (λ _. Sat-raise not_found db) (λ _. Sat-pure old db lawful))

  insert_tx-Sat :
      (w id hash actor payload : Str) (days : ℕ) (auto : Bool)
      → count_where (live now w) db.evaluations < 500
      → Sat
          (insert_tx (new_evaluation env now w id hash actor payload days auto))
          db
          (λ _ db'. IsLawful now db')
  unfolding insert_tx count_where
  insert_tx-Sat w id hash actor payload days auto room = Sat-exec _ _ db (
      Sat-pure _ _ (record {
        rows = (new_evaluation-Lawful env now w id hash actor payload days auto, lawful.rows);
        quota = λ v. ground (
          arith,
          lawful.quota v,
          new_evaluation-live env now v w id hash actor payload days auto,
        );
      }))

  save_tx-Sat :
      (w id hash actor payload : Str) (days : ℕ)
      → Sat (save_tx env now clock w id hash actor payload days) db (λ _ db'. IsLawful now db')
  unfolding save_tx
  save_tx-Sat w id hash actor payload days = Sat-exec _ _ db (
      Sat-query _ _ db (
        Sat-option (find_where (of_pair w id) db.evaluations) db
          (λ _. Sat-query _ _ db (
            Sat-if (leb 500 (count_where (live now w) db.evaluations)) db
              (λ _. Sat-raise conflict db)
              (λ room.
                Sat-query _ _ db
                  (insert_tx-Sat w id hash actor payload days (automatic w db) (ground arith)))))
          (λ old _. again_tx-Sat hash actor old)))

pub save-IsLawful :
    (env : Env) (now clock : ℕ) (ws id hash actor payload : Str) (days : ℕ) (db : Db) (fs : Faults)
    → IsLawful now db
    → IsLawful now (save env now clock ws id hash actor payload days db fs).1
unfolding save
save-IsLawful env now clock ws id hash actor payload days db fs h =
    if-rule (λ (r : Result Evaluation × Db). IsLawful now r.1) _ (λ _. h)
      (λ _.
        transact-rule (λ _ db'. IsLawful now db') _ db fs (λ _. h)
          (uuid_tx-Sat (env.uuid ws) _ db (λ w.
            uuid_tx-Sat (env.uuid id) _ db
              (λ i. save_tx-Sat env now clock db h w i hash actor payload days))))

reviewed_row-Lawful :
    (env : Env) (now : ℕ) (w id actor text : Str) (e : Evaluation)
    → reviewable now w id e ≡ true
    → Lawful (reviewed_row env now actor text e)
unfolding reviewable reviewed_row
reviewed_row-Lawful env now w id actor text e h = (ground arith, refl, refl)

reviewed-IsLawful :
    (env : Env) (now : ℕ) (w id actor text : Str) (db : Db)
    → IsLawful now db
    → IsLawful now (record db {
      evaluations =
          map_where (reviewable now w id) (reviewed_row env now actor text) db.evaluations;
    })
unfolding live reviewed_row
reviewed-IsLawful env now w id actor text db =
    map_where-IsLawful (reviewable now w id) (reviewed_row env now actor text)
      (λ e yes' _. reviewed_row-Lawful env now w id actor text e yes') (λ v e _ h. h)

review_rows-IsLawful :
    (env : Env) (now : ℕ) (w id actor text : Str) (db : Db) (e : Evaluation) (db' : Db)
    → IsLawful now db
    → review_rows env now w id actor text db ≡ ok (e, db')
    → IsLawful now db'
unfolding review_rows
review_rows-IsLawful env now w id actor text db e db' h eq =
    elim (Option-cases (find_where (reviewable now w id) db.evaluations)) [
      | inl missing ↦ absurd (ground arith)
      | inr (old, found) ↦
          let same : record db {
            evaluations =
                map_where (reviewable now w id) (reviewed_row env now actor text) db.evaluations;
          }
              ≡ db' =
            ground arith in
          subst (IsLawful now) same (reviewed-IsLawful env now w id actor text db h)
    ]

pub review-IsLawful :
    (env : Env) (now : ℕ) (ws id actor text : Str) (db : Db) (fs : Faults)
    → IsLawful now db
    → IsLawful now (review env now ws id actor text db fs).1
unfolding review
review-IsLawful env now ws id actor text db fs h =
    if-rule (λ (r : Result Evaluation × Db). IsLawful now r.1)
      (not (valid_uuid ws) || not (valid_uuid id) || not (env.valid_json text)) (λ _. h)
      (λ _.
        run-rule (λ _ db'. IsLawful now db') _ db fs (λ _. h)
          (uuid_tx-Sat (env.uuid ws) _ db (λ w. uuid_tx-Sat (env.uuid id) _ db (λ i.
            Sat-statement (review_rows env now w i actor text) db
              (λ e db' eq. review_rows-IsLawful env now w i actor text db e db' h eq)))))

withdraw_tx-Sat :
    (now : ℕ) (w id : Str) (db : Db)
    → IsLawful now db
    → Sat (withdraw_tx w id) db (λ _ db'. IsLawful now db')
unfolding withdraw_tx withdraw_rows
withdraw_tx-Sat now w id db h =
    Sat-step (λ (db : Db). ok (withdraw_rows w id db)) _ db
      (λ affected db' eq.
        let same : record db { evaluations = map_where (of_pair w id) withdrawn_row db.evaluations }
            ≡ db' =
          ground arith in
        Sat-if affected db'
          (λ _. Sat-pure tt db' (subst (IsLawful now) same (withdrawn-IsLawful (of_pair w id) h)))
          (λ _. Sat-raise not_found db'))

pub withdraw-IsLawful :
    (env : Env) (now : ℕ) (ws id : Str) (db : Db) (fs : Faults)
    → IsLawful now db
    → IsLawful now (withdraw env ws id db fs).1
unfolding withdraw
withdraw-IsLawful env now ws id db fs h =
    if-rule (λ (r : Result (Unit {0}) × Db). IsLawful now r.1)
      (not (valid_uuid ws) || not (valid_uuid id)) (λ _. h)
      (λ _.
        run-rule (λ _ db'. IsLawful now db') _ db fs (λ _. h)
          (uuid_tx-Sat (env.uuid ws) _ db
            (λ w. uuid_tx-Sat (env.uuid id) _ db (λ i. withdraw_tx-Sat now w i db h))))

pub purge-IsLawful :
    (now : ℕ) (db : Db) (fs : Faults) → IsLawful now db → IsLawful now (purge now db fs).1
unfolding purge
purge-IsLawful now db fs h =
    run-rule (λ _ db'. IsLawful now db') _ db fs (λ _. h)
      (Sat-exec_last _ db (withdrawn-IsLawful (stale now) h))

policy_tx-Sat :
    (now : ℕ) (w owner : Str) (enabled : Bool) (db : Db)
    → IsLawful now db
    → Sat (policy_tx now w owner enabled) db (λ _ db'. IsLawful now db')
unfolding policy_tx
policy_tx-Sat now w owner enabled db h = Sat-exec _ _ db (
    Sat-exec _ _ db (
      Sat-if (not enabled) _
        (λ _.
          Sat-exec_last _ _
            (withdrawn-IsLawful (generated_in w) (record { rows = h.rows; quota = h.quota })))
        (λ _. Sat-pure tt _ (record { rows = h.rows; quota = h.quota }))))

pub set_policy-IsLawful :
    (env : Env) (now : ℕ) (ws owner : Str) (enabled : Bool) (db : Db) (fs : Faults)
    → IsLawful now db
    → IsLawful now (set_policy env now ws owner enabled db fs).1
unfolding set_policy
set_policy-IsLawful env now ws owner enabled db fs h =
    if-rule (λ (r : Result (Unit {0}) × Db). IsLawful now r.1) (not (valid_uuid ws)) (λ _. h)
      (λ _.
        transact-rule (λ _ db'. IsLawful now db') _ db fs (λ _. h)
          (uuid_tx-Sat (env.uuid ws) _ db (λ w. policy_tx-Sat now w owner enabled db h)))
