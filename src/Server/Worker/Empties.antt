-- ===== src/Server/Worker/Empties.antt =====
-- The worker of internal/server/app.go on a queue whose jobs are all due.
use kasane_mcp.Prelude.{
  ℕ, suc, ◌≤◌, ◌≡◌, ◌⊎◌, refl, sym, subst, true, false, ◌||◌, not, List, [], ◌∷◌, Option, none,
  some, Str, Bool-cases, inl, inr, arith, length,
}
use kasane_mcp.Table.{Table, lookup}
use kasane_mcp.Core.Types.{Memory}
use kasane_mcp.Store.Schema.{Db, MemoryRow, JobRow}
use kasane_mcp.Store.Consistent.{IsConsistent, RowJob}
use kasane_mcp.Store.Worker.{process_one}
use kasane_mcp.Store.Worker.Progress.{process_one-IsConsistent}
use kasane_mcp.Feedback.Rows as Rows
use kasane_mcp.Server.Worker.{
  elapsed, Loop, Turn, purge_turn, check_turn, process_turn, turn, run_worker,
}
use kasane_mcp.Server.Worker.Drains.{AllDue, process_one-Shorter, process_one-idle}

-- A turn in which the database and the index answer, no memory is locked and the time has come.
pub record Fair (due : ℕ) (t : Turn) : Type 0 where
  pub answers : t.faults ≡ []
  pub ensures : t.ensured ≡ true
  pub free : (id : Str) → t.locked id ≡ false
  pub takes : (m : Memory) → t.apply m ≡ true
  pub soon : due ≤ t.now
  pub late : due ≤ t.clock

abbrev pub AllFair : ℕ → List Turn → Type 0
AllFair due [] = Unit {0}
AllFair due (t ∷ turns) = Fair due t × AllFair due turns

check_turn-ready : (t : Turn) (l : Loop) → t.ensured ≡ true → (check_turn t l).ready ≡ true
unfolding check_turn
check_turn-ready t l h =
    elim (Bool-cases (not l.ready || elapsed t.check_clock l.last_check 30000000)) [
      | inl due ↦ rw due h
      | inr settled ↦ rw settled (ground arith)
    ]

turn-processes :
    (t : Turn) (l : Loop) (db : Db) (rows : Rows.Db)
    → t.ensured ≡ true
    → t.faults ≡ []
    → (turn t l db rows).1.0 ≡ (process_one t.now t.clock t.locked t.apply db []).1
unfolding turn process_turn
turn-processes t l db rows ensured answers =
    rw (check_turn-ready t (purge_turn t l rows).0 ensured) (rw answers refl)

-- The queue is empty, and the index has every memory as it is.
pub record Settled (db : Db) : Type 0 where
  pub empty : db.outbox ≡ []
  pub current :
      (id : Str) (row : MemoryRow)
      → lookup id db.memories ≡ some row
      → (row.deleted ≡ true) ⊎ (row.indexed_revision ≡ row.revision)

empty-current :
    (db : Db)
    → IsConsistent db
    → db.outbox ≡ []
    → (id : Str) (row : MemoryRow) → lookup id db.memories ≡ some row
    → (row.deleted ≡ true) ⊎ (row.indexed_revision ≡ row.revision)
empty-current db c empty id row found =
    let gone : lookup id db.outbox ≡ none =
      subst (λ (t : Table JobRow). lookup id t ≡ none) (sym empty) (unfold lookup in refl) in
    let pair =
      subst (λ (o : Option JobRow). RowJob (some row) o) gone
        (subst (λ (o : Option MemoryRow). RowJob o (lookup id db.outbox)) found (c.rows id)) in
    pair.2

-- One fair turn: the queue stays empty, or it gets shorter.
record Progress (due n : ℕ) (db : Db) : Type 0 where
  consistent : IsConsistent db
  all_due : AllDue due db.outbox
  short : length db.outbox ≤ n

List-cases : {A : Type 0} (xs : List A) → (xs ≡ []) ⊎ ((x : A) × (t : List A) × (xs ≡ x ∷ t))
List-cases [] = inl refl
List-cases (x ∷ xs) = inr (x, xs, refl)

turn-Progress :
    (due n : ℕ) (t : Turn) (l : Loop) (db : Db) (rows : Rows.Db)
    → Fair due t
    → Progress due (suc n) db
    → Progress due n (turn t l db rows).1.0
turn-Progress due n t l db rows fair p = rw (turn-processes t l db rows fair.ensures fair.answers) (
    let kept = process_one-IsConsistent t.now t.clock t.locked t.apply db [] p.consistent in
    elim (List-cases db.outbox) [
      | inl empty ↦ rw (process_one-idle t.now t.clock t.locked t.apply db empty) (record {
        consistent = p.consistent;
        all_due = p.all_due;
        short = rw empty (omega arith);
      })
      | inr (job, rest, eq) ↦
          let s =
            process_one-Shorter t.now t.clock due t.locked t.apply db p.consistent p.all_due
              fair.late fair.takes job rest eq fair.soon fair.free in
          record {
            consistent = kept;
            all_due = s.still_due;
            short = omega (arith, s.less, p.short);
          }
    ])

run_worker-Progress :
    (due : ℕ) (turns : List Turn) (l : Loop) (db : Db) (rows : Rows.Db)
    → AllFair due turns
    → Progress due (length turns) db
    → Progress due 0 (run_worker turns l db rows).1.0
unfolding run_worker
run_worker-Progress due [] l db rows fair p = p
run_worker-Progress due (t ∷ turns) l db rows fair p =
    run_worker-Progress due turns _ _ _ fair.1
      (turn-Progress due (length turns) t l db rows fair.0 p)

length-zero : {A : Type 0} (xs : List A) → length xs ≤ 0 → xs ≡ []
length-zero [] h = refl
length-zero (x ∷ xs) h = absurd (omega arith)

-- From any state of the worker's loop and any consistent tables whose jobs are all due by a time: as
-- many turns as there are jobs, in each of which the database and the index answer, no memory is
-- locked and that time has come, leave an empty queue and every memory that is not deleted indexed
-- at its revision.
pub run_worker-Settled :
    (due : ℕ) (turns : List Turn) (l : Loop) (db : Db) (rows : Rows.Db)
    → IsConsistent db
    → AllDue due db.outbox
    → length db.outbox ≤ length turns
    → AllFair due turns
    → Settled (run_worker turns l db rows).1.0
run_worker-Settled due turns l db rows c all_due enough fair =
    let p =
      run_worker-Progress due turns l db rows fair
        (record { consistent = c; all_due = all_due; short = enough }) in
    let empty = length-zero _ p.short in
    record { empty = empty; current = empty-current _ p.consistent empty }
