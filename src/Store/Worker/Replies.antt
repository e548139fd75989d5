-- ===== src/Store/Worker/Replies.antt =====
-- What `Store.ProcessOne` (internal/store/store.go) returns when every statement is carried out.
use kasane_mcp.Prelude.{ℕ, ◌≡◌, refl, Bool, true, false, [], some, Str, ltb, ok}
use kasane_mcp.Table.{lookup, modify, remove}
use kasane_mcp.Tx.{transact, ◌>>=◌}
use kasane_mcp.Core.Types.{Memory}
use kasane_mcp.Store.Schema.{Db, MemoryRow, JobRow, EventKind, scan_memory}
use kasane_mcp.Store.Worker.{
  next_due, indexed_row, settle_tx, drop_tx, attempt_tx, claim_tx, process_tx, process_one,
}

module _ (now clock : ℕ) (locked : Str → Bool) (apply : Memory → Bool) (db : Db) (id : Str)
    (due job : JobRow) (row : MemoryRow)
    (chosen : next_due now locked db.memories db.outbox ≡ some (id, due))
    (there : lookup id db.memories ≡ some row) (queued : lookup id db.outbox ≡ some job)
    (still : ltb clock job.next_attempt ≡ false) where
  -- When an upsert is chosen that is still due under its lock, its memory is there and the index
  -- takes it: the call returns true, the indexed revision is the memory's, and the job is gone.
  pub process_one-indexes :
      apply (scan_memory id row) ≡ true
      → job.event_kind ≡ EventKind.upsert
      → process_one now clock locked apply db [] ≡ (
        ok true,
        record db { memories = modify id indexed_row db.memories; outbox = remove id db.outbox },
      )
  unfolding process_one process_tx claim_tx attempt_tx settle_tx drop_tx transact ◌>>=◌
  process_one-indexes taken event = rw (chosen, there, queued, still, taken, event) refl
