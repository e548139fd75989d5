-- ===== src/Store/Worker/Progress.antt =====
-- The outcomes of `Store.ProcessOne` (internal/store/store.go).
use kasane_mcp.Prelude.{
  ℕ, ◌+◌, ◌*◌, ◌^◌, min, ◌≤◌, ◌≡◌, refl, subst, Bool, true, false, Option, none, some, Str, str_eq,
  ltb, arith, Bool-cases, inl, inr, Result, ok, err, Error, unavailable, if◌then◌else◌,
}
use kasane_mcp.Table.{Table, lookup, modify, remove}
use kasane_mcp.Table.Laws.{lookup-at, lookup-modify_at, lookup-remove, count-modify}
use kasane_mcp.Tx.{Faults}
use kasane_mcp.Tx.Rules.{
  Sat, Sat-pure, Sat-raise, Sat-if, Sat-option, Sat-query, Sat-exec, Sat-weaken, transact-rule,
}
use kasane_mcp.Core.Types.{Memory}
use kasane_mcp.Store.Schema.{
  Db, MemoryRow, JobRow, EventKind, in_profile, profile_count, scan_memory,
}
use kasane_mcp.Store.Consistent.{IsConsistent, RowJob, modify-Keyed}
use kasane_mcp.Store.Worker.{
  retried_job, backoff, retry_tx, drop_tx, indexed_row, settle_tx, attempt_tx, claim_tx, process_tx,
  process_one, next_due,
}

-- The job that was taken up.
pub record Claimed (db : Db) (clock : ℕ) (id : Str) (row : MemoryRow) (job : JobRow) : Type 0 where
  pub found : lookup id db.memories ≡ some row
  pub queued : lookup id db.outbox ≡ some job
  pub due : job.next_attempt ≤ clock

-- A row whose current revision the index has.
abbrev pub settled_row : MemoryRow → MemoryRow
settled_row row = record {
  kind = row.kind;
  workspace_id = row.workspace_id;
  title = row.title;
  content = row.content;
  tags = row.tags;
  source = row.source;
  revision = row.revision;
  indexed_revision = row.revision;
  idempotency_key = row.idempotency_key;
  deleted = row.deleted;
  created_at = row.created_at;
  updated_at = row.updated_at;
}

-- A job that counts one more attempt and waits 2 seconds behind the first, 4 behind the second and so
-- on, but 5 minutes at most.
abbrev pub put_off : ℕ → JobRow → JobRow
put_off now job = record {
  event_kind = job.event_kind;
  revision = job.revision;
  attempts = job.attempts + 1;
  next_attempt = now + min 300000000 (1000000 * 2 ^ min (job.attempts + 1) 9);
  created_at = job.created_at;
}

-- Nothing was due; the index took the memory (a removal, or its current text); or it refused it.
pub data Processed (now clock : ℕ) (apply : Memory → Bool) (db : Db) : Bool → Db → Type 0 where
  idle : Processed now clock apply db false db
  removed :
      (id : Str) (row : MemoryRow) (job : JobRow)
      → Claimed db clock id row job
      → apply (scan_memory id row) ≡ true
      → job.event_kind ≡ EventKind.delete
      → Processed now clock apply db true (record db { outbox = remove id db.outbox })
  indexed :
      (id : Str) (row : MemoryRow) (job : JobRow)
      → Claimed db clock id row job
      → apply (scan_memory id row) ≡ true
      → job.event_kind ≡ EventKind.upsert
      → Processed now clock apply db true
          (record db { memories = modify id settled_row db.memories; outbox = remove id db.outbox })
  retried :
      (id : Str) (row : MemoryRow) (job : JobRow)
      → Claimed db clock id row job
      → apply (scan_memory id row) ≡ false
      → Processed now clock apply db true (record db { outbox = modify id (put_off now) db.outbox })

module _ (now clock : ℕ) (apply : Memory → Bool) (db : Db) where
  settle_tx-Sat :
      (id : Str) (row : MemoryRow) (job : JobRow) (kind : EventKind)
      → job.event_kind ≡ kind
      → Claimed db clock id row job
      → apply (scan_memory id row) ≡ true
      → Sat (settle_tx id kind) db (Processed now clock apply db)
  unfolding settle_tx drop_tx indexed_row
  settle_tx-Sat id row job EventKind.upsert event c taken =
      Sat-exec _ _ db (Sat-exec _ _ _ (Sat-pure true _ (indexed id row job c taken event)))
  settle_tx-Sat id row job EventKind.delete event c taken =
      Sat-exec _ _ db (Sat-pure true _ (removed id row job c taken event))

  attempt_tx-Sat :
      (id : Str) (row : MemoryRow) (job : Option JobRow)
      → lookup id db.memories ≡ some row
      → lookup id db.outbox ≡ job
      → Sat (attempt_tx now clock apply id row job) db (Processed now clock apply db)
  unfolding attempt_tx retry_tx retried_job backoff
  attempt_tx-Sat id row none found queued = Sat-pure false db idle
  attempt_tx-Sat id row (some job) found queued =
      Sat-if (ltb clock job.next_attempt) db (λ _. Sat-pure false db idle)
        (λ due.
          let claimed : Claimed db clock id row job = record {
            found = found;
            queued = queued;
            due = ground arith;
          } in
          Sat-if (apply (scan_memory id row)) db
            (λ taken. settle_tx-Sat id row job job.event_kind refl claimed taken)
            (λ failed. Sat-exec _ _ db (Sat-pure true _ (retried id row job claimed failed))))

  claim_tx-Sat :
      (due : Option (Str × JobRow))
      → Sat (claim_tx now clock apply due) db (Processed now clock apply db)
  unfolding claim_tx
  claim_tx-Sat none = Sat-pure false db idle
  claim_tx-Sat (some (id, due)) = Sat-query _ _ db (
      Sat-option (lookup id db.memories) db (λ _. Sat-raise unavailable db)
        (λ row found. Sat-query _ _ db (attempt_tx-Sat id row (lookup id db.outbox) found refl)))

-- Either an error and the tables as they were, or the outcome.
pub data Settled (now clock : ℕ) (apply : Memory → Bool) (db : Db) : Result Bool → Db → Type 0 where
  failed : (e : Error) → Settled now clock apply db (err e) db
  done :
      {worked : Bool} {db' : Db}
      → Processed now clock apply db worked db'
      → Settled now clock apply db (ok worked) db'

-- Whatever the clocks, the locked rows, the index, the tables and the statements that fail:
-- ProcessOne returns an error and leaves the tables as they were; or it does nothing and returns
-- false; or it has handed the current memory of a job that is due to the index and returns true.
-- If the index took it, the job is gone and, for an upsert, the memory's indexed revision is its
-- revision; if it did not, the job counts one more attempt, the n-th, and is put off by 2 ^ n seconds
-- or, from the ninth on, by 5 minutes.
pub process_one-Settled :
    (now clock : ℕ) (locked : Str → Bool) (apply : Memory → Bool) (db : Db) (fs : Faults)
    → Settled now clock apply db
        (process_one now clock locked apply db fs).0
        (process_one now clock locked apply db fs).1
unfolding process_one process_tx
process_one-Settled now clock locked apply db fs =
    transact-rule (Settled now clock apply db) (process_tx now clock locked apply) db fs failed (
      Sat-weaken (λ w db' r. done r)
        (Sat-query _ _ db
          (claim_tx-Sat now clock apply db (next_due now locked db.memories db.outbox))))

-- The pair of a row and its job changes under one ID only.
RowJob-change :
    (mem mem' : Table MemoryRow) (out out' : Table JobRow) (id j : Str) (row : Option MemoryRow)
    (job : Option JobRow)
    → lookup j mem' ≡ (if str_eq id j then row else lookup j mem)
    → lookup j out' ≡ (if str_eq id j then job else lookup j out)
    → RowJob row job
    → RowJob (lookup j mem) (lookup j out)
    → RowJob (lookup j mem') (lookup j out')
RowJob-change mem mem' out out' id j row job rows jobs here there =
    rw (rows, jobs) (elim (Bool-cases (str_eq id j)) [ inl e ↦ rw e here | inr e ↦ rw e there ])

Claimed-RowJob :
    {db : Db} {clock : ℕ} {id : Str} {row : MemoryRow} {job : JobRow}
    → IsConsistent db
    → Claimed db clock id row job
    → RowJob (some row) (some job)
Claimed-RowJob {db} {clock} {id} {row} c k =
    subst (λ (o : Option JobRow). RowJob (some row) o) k.queued
      (subst (λ (o : Option MemoryRow). RowJob o (lookup id db.outbox)) k.found (c.rows id))

Processed-IsConsistent :
    {now clock : ℕ} {apply : Memory → Bool} {db db' : Db} {worked : Bool}
    → IsConsistent db
    → Processed now clock apply db worked db'
    → IsConsistent db'
Processed-IsConsistent c idle = c
Processed-IsConsistent {db = db} c (removed id row job k taken event) =
    let (revised, formed, rev, kind) = Claimed-RowJob c k in
    record {
      keyed = c.keyed;
      rows = λ j.
          RowJob-change db.memories db.memories db.outbox (remove id db.outbox) id j (some row) none
            (lookup-at id j db.memories row k.found) (lookup-remove id j db.outbox)
            (revised, formed, inl (kind (rw event refl))) (c.rows j);
      profiles = unfold profile_count in c.profiles;
    }
Processed-IsConsistent {db = db} c (indexed id row job k taken event) =
    let (revised, formed, rev, kind) = Claimed-RowJob c k in
    record {
      keyed = modify-Keyed id settled_row db.memories c.keyed;
      rows = λ j.
          RowJob-change db.memories _ db.outbox (remove id db.outbox) id j (some (settled_row row))
            none (lookup-modify_at id j settled_row db.memories row k.found)
            (lookup-remove id j db.outbox) (revised, ground arith, inr refl) (c.rows j);
      profiles = λ w.
          unfold profile_count in_profile in
          ground (
            arith,
            count-modify (in_profile w) id settled_row db.memories row k.found,
            c.profiles w,
          );
    }
Processed-IsConsistent {now} {db = db} c (retried id row job k refused) =
    let (revised, formed, rev, kind) = Claimed-RowJob c k in
    record {
      keyed = c.keyed;
      rows = λ j.
          RowJob-change db.memories db.memories db.outbox _ id j (some row) (some (put_off now job))
            (lookup-at id j db.memories row k.found)
            (lookup-modify_at id j (put_off now) db.outbox job k.queued)
            (revised, formed, rev, kind) (c.rows j);
      profiles = unfold profile_count in c.profiles;
    }

Settled-IsConsistent :
    {now clock : ℕ} {apply : Memory → Bool} {db db' : Db} {r : Result Bool}
    → IsConsistent db
    → Settled now clock apply db r db'
    → IsConsistent db'
Settled-IsConsistent c (failed e) = c
Settled-IsConsistent c (done p) = Processed-IsConsistent c p

pub process_one-IsConsistent :
    (now clock : ℕ) (locked : Str → Bool) (apply : Memory → Bool) (db : Db) (fs : Faults)
    → IsConsistent db
    → IsConsistent (process_one now clock locked apply db fs).1
process_one-IsConsistent now clock locked apply db fs c =
    Settled-IsConsistent c (process_one-Settled now clock locked apply db fs)
