-- ===== src/Store/Worker.antt =====
-- The index queue: `Store.Reindex` and `Store.ProcessOne` of internal/store/store.go.
pub mod Reindexed
pub mod Requeue
pub mod Progress
pub mod Replies
use kasane_mcp.Prelude.{
  ℕ, ◌+◌, ◌*◌, ◌^◌, min, Bool, true, false, ◌&&◌, ◌||◌, not, List, [], ◌∷◌, Option, none, some, Str,
  str_eq, ltb, leb, ◌==◌, is_some, if◌then◌else◌, Result, unavailable,
}
use kasane_mcp.Table.{Table, lookup, modify, remove}
use kasane_mcp.Tx.{Tx, Faults, pure, raise, query, exec, ◌>>=◌, ◌>>◌, transact}
use kasane_mcp.Core.Types.{Memory}
use kasane_mcp.Core.Validation.{is_empty}
use kasane_mcp.Store.Schema.{Env, Db, MemoryRow, JobRow, EventKind, scan_memory, cast_tx}
use kasane_mcp.Store.Outbox.{outbox_tx}

-- deleted=false [AND workspace_id=$1::uuid]
live_in : Option Str → MemoryRow → Bool
live_in none row = not row.deleted
live_in (some w) row = not row.deleted && str_eq row.workspace_id w

-- SELECT id::text,revision FROM memories WHERE …
unfoldable pub live_items : Option Str → Table MemoryRow → List (Str × ℕ)
unfolding live_in
live_items w [] = []
live_items w ((id, row) ∷ t) =
    let rest = live_items w t in if live_in w row then (id, row.revision) ∷ rest else rest

-- SET indexed_revision=0
unfoldable pub outdated_row : MemoryRow → MemoryRow
outdated_row row = record row { indexed_revision = 0 }

-- The loop over the rows that were read.
unfoldable pub requeue_tx : ℕ → List (Str × ℕ) → Tx Db (Unit {0})
requeue_tx now [] = pure tt
requeue_tx now ((id, rev) ∷ items) = do
  exec (λ (db : Db). record db { memories = modify id outdated_row db.memories })
  outbox_tx now id EventKind.upsert rev
  requeue_tx now items

unfoldable pub scope_tx : Env → Str → Tx Db (Option Str)
scope_tx env ws = if is_empty ws then pure none else (do w ← cast_tx env ws; pure (some w))

-- The SELECT locks no row: `seen` are the tables that it sees, and others may write before the rows
-- are updated.
unfoldable pub reindex_tx : Env → ℕ → Str → Db → Tx Db (Unit {0})
reindex_tx env now ws seen = do
  scope ← scope_tx env ws
  items ← query (λ _. live_items scope seen.memories)
  requeue_tx now items

unfoldable pub reindex : Env → ℕ → Str → Db → Db → Faults → Result (Unit {0}) × Db
reindex env now ws seen = transact (reindex_tx env now ws seen)

-- ORDER BY next_attempt,created_at
abbrev pub earlier : JobRow → JobRow → Bool
earlier a b =
    ltb a.next_attempt b.next_attempt
    || (a.next_attempt == b.next_attempt && leb a.created_at b.created_at)

abbrev pub first : Str × JobRow → Option (Str × JobRow) → Option (Str × JobRow)
first job none = some job
first job (some other) = if earlier job.1 other.1 then some job else some other

-- A job that is due, of a memory that is there and not locked by another transaction.
unfoldable pub ready : ℕ → (Str → Bool) → Table MemoryRow → Str × JobRow → Bool
ready now locked memories job =
    leb job.1.next_attempt now && is_some (lookup job.0 memories) && not (locked job.0)

-- The row of the first SELECT of `ProcessOne` (FOR UPDATE OF m SKIP LOCKED LIMIT 1).
unfoldable pub next_due : ℕ → (Str → Bool) → Table MemoryRow → Table JobRow → Option (Str × JobRow)
next_due now locked memories [] = none
next_due now locked memories (job ∷ outbox) =
    let rest = next_due now locked memories outbox in
    if ready now locked memories job then first job rest else rest

-- least(interval '5 minutes', interval '1 second'*power(2,least(attempts+1,9)))
unfoldable pub backoff : ℕ → ℕ
backoff attempts = min 300000000 (1000000 * 2 ^ min (attempts + 1) 9)

unfoldable pub retried_job : ℕ → JobRow → JobRow
retried_job now job = record job {
  attempts = job.attempts + 1;
  next_attempt = now + backoff job.attempts;
}

unfoldable pub retry_tx : ℕ → Str → Tx Db Bool
retry_tx now id = do
  exec (λ (db : Db). record db { outbox = modify id (retried_job now) db.outbox })
  pure true

unfoldable pub drop_tx : Str → Tx Db Bool
drop_tx id = do exec (λ (db : Db). record db { outbox = remove id db.outbox }); pure true

-- SET indexed_revision=revision
unfoldable pub indexed_row : MemoryRow → MemoryRow
indexed_row row = record row { indexed_revision = row.revision }

unfoldable pub settle_tx : Str → EventKind → Tx Db Bool
settle_tx id EventKind.delete = drop_tx id
settle_tx id EventKind.upsert = do
  exec (λ (db : Db). record db { memories = modify id indexed_row db.memories })
  drop_tx id

-- Behind the second SELECT, which reads the job again under its lock. `clock` is time.Now().
unfoldable pub attempt_tx : ℕ → ℕ → (Memory → Bool) → Str → MemoryRow → Option JobRow → Tx Db Bool
attempt_tx now clock apply id row none = pure false
attempt_tx now clock apply id row (some job) =
    if ltb clock job.next_attempt
    then pure false
    else if apply (scan_memory id row)
    then settle_tx id job.event_kind
    else retry_tx now id

unfoldable pub claim_tx : ℕ → ℕ → (Memory → Bool) → Option (Str × JobRow) → Tx Db Bool
claim_tx now clock apply none = pure false
claim_tx now clock apply (some (id, due)) = do
  found ← query (λ (db : Db). lookup id db.memories)
  elim found [
    | none ↦ raise unavailable
    | some row ↦ do
      job ← query (λ (db : Db). lookup id db.outbox)
      attempt_tx now clock apply id row job
  ]

unfoldable pub process_tx : ℕ → ℕ → (Str → Bool) → (Memory → Bool) → Tx Db Bool
process_tx now clock locked apply = do
  due ← query (λ (db : Db). next_due now locked db.memories db.outbox)
  claim_tx now clock apply due

-- `apply` says whether the callback takes the memory without an error.
unfoldable pub process_one : ℕ → ℕ → (Str → Bool) → (Memory → Bool) → Db → Faults → Result Bool × Db
process_one now clock locked apply = transact (process_tx now clock locked apply)
