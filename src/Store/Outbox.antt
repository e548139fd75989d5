-- ===== src/Store/Outbox.antt =====
-- `outboxTx` of internal/store/store.go: one job for a memory, the last event replacing the others.
use kasane_mcp.Prelude.{
  Option-cases, inl, inr, ℕ, ◌≡◌, refl, Option, none, some, ◌∷◌, Str, str_eq, str_eq_iff, arith,
  if◌then◌else◌,
}
use kasane_mcp.Table.{Table, lookup, modify}
use kasane_mcp.Table.Laws.{lookup-modify}
use kasane_mcp.Tx.{Tx, exec}
use kasane_mcp.Store.Schema.{Db, JobRow, EventKind}

new_job : ℕ → EventKind → ℕ → JobRow
new_job now kind rev = record {
  event_kind = kind;
  revision = rev;
  attempts = 0;
  next_attempt = now;
  created_at = now;
}

-- DO UPDATE SET …: the creation time stays.
requeued : ℕ → EventKind → ℕ → JobRow → JobRow
requeued now kind rev job = record job {
  event_kind = kind;
  revision = rev;
  attempts = 0;
  next_attempt = now;
}

unfoldable pub enqueue : ℕ → Str → EventKind → ℕ → Table JobRow → Table JobRow
unfolding new_job requeued
enqueue now id kind rev outbox = elim (lookup id outbox) [
  | none ↦ (id, new_job now kind rev) ∷ outbox
  | some job ↦ modify id (requeued now kind rev) outbox
]

unfoldable pub outbox_tx : ℕ → Str → EventKind → ℕ → Tx Db (Unit {0})
outbox_tx now id kind rev =
    exec (λ (db : Db). record db { outbox = enqueue now id kind rev db.outbox })

-- The job of a memory behind an enqueue.
unfoldable pub queued : ℕ → EventKind → ℕ → Option JobRow → JobRow
unfolding new_job requeued
queued now kind rev none = new_job now kind rev
queued now kind rev (some job) = requeued now kind rev job

pub lookup-enqueue :
    (now : ℕ) (id : Str) (kind : EventKind) (rev : ℕ) (outbox : Table JobRow) (j : Str)
    → lookup j (enqueue now id kind rev outbox)
      ≡ (if str_eq id j then some (queued now kind rev (lookup id outbox)) else lookup j outbox)
unfolding enqueue queued
lookup-enqueue now id kind rev outbox j = elim (Option-cases (lookup id outbox)) [
  | inl e ↦ rw (e, enqueue) (unfold lookup in refl)
  | inr (job, e) ↦
      rw (e, enqueue)
        (ground (arith, lookup-modify id j (requeued now kind rev) outbox, str_eq_iff id j, e))
]

-- When the job of a memory was created: the first of its events.
abbrev pub first_queued : ℕ → Option JobRow → ℕ
first_queued now none = now
first_queued now (some job) = job.created_at

queued-job :
    (now : ℕ) (kind : EventKind) (rev : ℕ) (o : Option JobRow)
    → queued now kind rev o ≡ record {
      event_kind = kind;
      revision = rev;
      attempts = 0;
      next_attempt = now;
      created_at = first_queued now o;
    }
unfolding queued
queued-job now kind rev none = refl
queued-job now kind rev (some job) = refl

-- Behind an event the memory has one job, whatever jobs there were: the event and the revision that
-- were given, due at once, with no attempt counted, created when the memory's first job that is
-- still there was. The jobs of other memories are as they were.
pub enqueue-lookup :
    (now : ℕ) (id : Str) (kind : EventKind) (rev : ℕ) (outbox : Table JobRow) (j : Str)
    → lookup j (enqueue now id kind rev outbox) ≡ (
        if str_eq id j
        then some (record {
          event_kind = kind;
          revision = rev;
          attempts = 0;
          next_attempt = now;
          created_at = first_queued now (lookup id outbox);
        })
        else lookup j outbox)
enqueue-lookup now id kind rev outbox j =
    rw (lookup-enqueue now id kind rev outbox j, queued-job now kind rev (lookup id outbox)) refl
