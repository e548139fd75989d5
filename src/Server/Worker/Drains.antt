-- ===== src/Server/Worker/Drains.antt =====
-- One `ProcessOne` (internal/store/store.go) on a queue whose jobs are all due.
use kasane_mcp.Prelude.{
  ℕ, ◌≤◌, ◌<◌, ◌≡◌, ◌⊎◌, refl, sym, subst, Bool, true, false, [], ◌∷◌, Option, none, some, Str,
  str_eq, str_eq_refl, ltb, if-rule, Bool-cases, Option-cases, inl, inr, Result, ok, arith, length,
  is_some,
}
use kasane_mcp.Table.{Table, lookup, remove, modify}
use kasane_mcp.Core.Types.{Memory}
use kasane_mcp.Store.Schema.{Db, MemoryRow, JobRow, EventKind, scan_memory}
use kasane_mcp.Store.Consistent.{IsConsistent, RowJob}
use kasane_mcp.Store.Worker.{
  earlier, first, process_one, next_due, ready, indexed_row, process_tx, claim_tx, attempt_tx,
  settle_tx, drop_tx,
}
use kasane_mcp.Store.Worker.Replies.{process_one-indexes}
use kasane_mcp.Tx.{transact, ◌>>=◌}

-- Every job is due at the given time.
abbrev pub AllDue : ℕ → Table JobRow → Type 0
AllDue now [] = Unit {0}
AllDue now ((id, job) ∷ t) = (job.next_attempt ≤ now) × AllDue now t

AllDue-lookup :
    (now : ℕ) (t : Table JobRow) (id : Str) (job : JobRow)
    → AllDue now t
    → lookup id t ≡ some job
    → job.next_attempt ≤ now
unfolding lookup
AllDue-lookup now [] id job due h = cc
AllDue-lookup now ((j, other) ∷ t) id job due h = elim (Bool-cases (str_eq j id)) [
  | inl same ↦
      let eq : other ≡ job = ground arith in subst (λ (x : JobRow). x.next_attempt ≤ now) eq due.0
  | inr different ↦ AllDue-lookup now t id job due.1 (ground arith)
]

AllDue-remove : (now : ℕ) (id : Str) (t : Table JobRow) → AllDue now t → AllDue now (remove id t)
unfolding remove
AllDue-remove now id [] due = tt
AllDue-remove now id ((j, job) ∷ t) due =
    if-rule (AllDue now) (str_eq j id) (λ _. AllDue-remove now id t due.1)
      (λ _. (due.0, AllDue-remove now id t due.1))

length-remove_le : (id : Str) (t : Table JobRow) → length (remove id t) ≤ length t
unfolding remove
length-remove_le id [] = omega arith
length-remove_le id ((j, job) ∷ t) = ground (arith, length-remove_le id t)

length-remove :
    (id : Str) (t : Table JobRow) (job : JobRow)
    → lookup id t ≡ some job
    → length (remove id t) < length t
unfolding remove lookup
length-remove id [] job h = cc
length-remove id ((j, other) ∷ t) job h =
    ground (arith, length-remove id t job, length-remove_le id t)

-- The earlier one of a job and of what was found.
first-cases :
    (job : Str × JobRow) (o : Option (Str × JobRow)) (r : Str × JobRow)
    → first job o ≡ some r
    → (r ≡ job) ⊎ (o ≡ some r)
first-cases job none r h = inl cc
first-cases job (some other) r h = elim (Bool-cases (earlier job.1 other.1)) [
  | inl yes' ↦ inl (ground arith)
  | inr no' ↦ inr (ground arith)
]

first-some :
    (job : Str × JobRow) (o : Option (Str × JobRow)) → (r : Str × JobRow) × (first job o ≡ some r)
first-some job none = (job, refl)
first-some job (some other) = elim (Bool-cases (earlier job.1 other.1)) [
  | inl yes' ↦ (job, rw yes' refl)
  | inr no' ↦ (other, rw no' refl)
]

module _ (now : ℕ) (locked : Str → Bool) (memories : Table MemoryRow) where
  -- The job that is chosen is in the queue.
  next_due-found :
      (t : Table JobRow) (r : Str × JobRow)
      → next_due now locked memories t ≡ some r
      → is_some (lookup r.0 t) ≡ true
  unfolding next_due lookup
  next_due-found [] r h = cc
  next_due-found ((j, other) ∷ t) r h = elim (Bool-cases (ready now locked memories (j, other))) [
    | inr no' ↦ let rest = next_due-found t r (ground arith) in ground arith
    | inl yes' ↦ elim (first-cases (j, other) (next_due now locked memories t) r (ground arith)) [
      | inl same ↦ rw same (rw (str_eq_refl j) refl)
      | inr later ↦ let rest = next_due-found t r later in ground arith
    ]
  ]

  next_due-some :
      (job : Str × JobRow) (t : Table JobRow)
      → ready now locked memories job ≡ true
      → (r : Str × JobRow) × (next_due now locked memories (job ∷ t) ≡ some r)
  unfolding next_due
  next_due-some job t is = rw is (first-some job (next_due now locked memories t))

-- A queued job has its memory.
job-memory :
    (db : Db) (id : Str) (job : JobRow)
    → IsConsistent db
    → lookup id db.outbox ≡ some job
    → (row : MemoryRow) × (lookup id db.memories ≡ some row)
job-memory db id job c queued = elim (Option-cases (lookup id db.memories)) [
  | inr found ↦ found
  | inl none' ↦ absurd (
      subst (λ (o : Option JobRow). RowJob none o) queued
        (subst (λ (o : Option MemoryRow). RowJob o (lookup id db.outbox)) none' (c.rows id)))
]

-- The queue is shorter behind the call, and its jobs are those that were there.
pub record Shorter (due : ℕ) (db : Db) (r : Result Bool × Db) : Type 0 where
  pub worked : r.0 ≡ ok true
  pub less : length r.1.outbox < length db.outbox
  pub still_due : AllDue due r.1.outbox

module _ (now clock due : ℕ) (locked : Str → Bool) (apply : Memory → Bool) (db : Db)
    (c : IsConsistent db) (all_due : AllDue due db.outbox) (late : due ≤ clock)
    (taken : (m : Memory) → apply m ≡ true) where
  removed-Shorter :
      (id : Str) (job : JobRow) (memories : Table MemoryRow)
      → lookup id db.outbox ≡ some job
      → process_one now clock locked apply db []
        ≡ (ok true, record db { memories = memories; outbox = remove id db.outbox })
      → Shorter due db (process_one now clock locked apply db [])
  removed-Shorter id job memories queued h = rw h (record {
    worked = refl;
    less = length-remove id db.outbox job queued;
    still_due = AllDue-remove due id db.outbox all_due;
  })

  process_one-removes :
      (id : Str) (chosen job : JobRow) (row : MemoryRow)
      → next_due now locked db.memories db.outbox ≡ some (id, chosen)
      → lookup id db.memories ≡ some row
      → lookup id db.outbox ≡ some job
      → ltb clock job.next_attempt ≡ false
      → job.event_kind ≡ EventKind.delete
      → process_one now clock locked apply db []
        ≡ (ok true, record db { outbox = remove id db.outbox })
  unfolding process_one process_tx claim_tx attempt_tx settle_tx drop_tx transact ◌>>=◌
  process_one-removes id chosen job row h there queued still event =
      rw (h, there, queued, still, taken (scan_memory id row), event) refl

  still_due :
      (id : Str) (job : JobRow)
      → lookup id db.outbox ≡ some job
      → ltb clock job.next_attempt ≡ false
  still_due id job queued = ground (arith, AllDue-lookup due db.outbox id job all_due queued)

  settled-Shorter :
      (id : Str) (chosen job : JobRow) (row : MemoryRow)
      → next_due now locked db.memories db.outbox ≡ some (id, chosen)
      → lookup id db.memories ≡ some row
      → lookup id db.outbox ≡ some job
      → (kind : EventKind) → job.event_kind ≡ kind
      → Shorter due db (process_one now clock locked apply db [])
  settled-Shorter id chosen job row h there queued EventKind.upsert event =
      removed-Shorter id job (modify id indexed_row db.memories) queued (
        process_one-indexes now clock locked apply db id chosen job row h there queued
          (still_due id job queued) (taken (scan_memory id row)) event)
  settled-Shorter id chosen job row h there queued EventKind.delete event =
      removed-Shorter id job db.memories queued
        (process_one-removes id chosen job row h there queued (still_due id job queued) event)

  chosen-Shorter :
      (r : Str × JobRow)
      → next_due now locked db.memories db.outbox ≡ some r
      → Shorter due db (process_one now clock locked apply db [])
  chosen-Shorter (id, chosen) h =
      let there = next_due-found now locked db.memories db.outbox (id, chosen) h in
      elim (Option-cases (lookup id db.outbox)) [
        | inl none' ↦ absurd (ground arith)
        | inr (job, queued) ↦
            let memory = job-memory db id job c queued in
            settled-Shorter id chosen job memory.0 h memory.1 queued job.event_kind refl
      ]

  head-ready :
      (job : Str × JobRow) (t : Table JobRow)
      → db.outbox ≡ job ∷ t
      → due ≤ now
      → ((id : Str) → locked id ≡ false)
      → ready now locked db.memories job ≡ true
  unfolding ready
  head-ready job t eq soon free =
      let first_due = subst (λ (x : Table JobRow). AllDue due x) eq all_due in
      let queued : lookup job.0 db.outbox ≡ some job.1 =
        subst (λ (x : Table JobRow). lookup job.0 x ≡ some job.1) (sym eq)
          (unfold lookup in rw (str_eq_refl job.0) refl) in
      let memory = job-memory db job.0 job.1 c queued in
      ground (arith, first_due.0, memory.1, free job.0)

  pub process_one-Shorter :
      (job : Str × JobRow) (t : Table JobRow)
      → db.outbox ≡ job ∷ t
      → due ≤ now
      → ((id : Str) → locked id ≡ false)
      → Shorter due db (process_one now clock locked apply db [])
  process_one-Shorter job t eq soon free =
      let chosen = next_due-some now locked db.memories job t (head-ready job t eq soon free) in
      chosen-Shorter chosen.0 (
        subst (λ (x : Table JobRow). next_due now locked db.memories x ≡ some chosen.0) (sym eq)
          chosen.1)

pub process_one-idle :
    (now clock : ℕ) (locked : Str → Bool) (apply : Memory → Bool) (db : Db)
    → db.outbox ≡ []
    → (process_one now clock locked apply db []).1 ≡ db
unfolding process_one process_tx claim_tx next_due transact ◌>>=◌
process_one-idle now clock locked apply db empty =
    rw (subst (λ (x : Table JobRow). next_due now locked db.memories x ≡ none) (sym empty) refl)
      refl
