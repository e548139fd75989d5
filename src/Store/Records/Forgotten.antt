-- ===== src/Store/Records/Forgotten.antt =====
-- The outcomes of `Store.Forget` (internal/store/store.go).
use kasane_mcp.Prelude.{
  ℕ, ◌+◌, ◌≡◌, refl, sym, subst, true, false, [], not, none, some, Option-cases, Str, if-rule,
  arith, Result, ok, err, Error, invalid, inl, inr,
}
use kasane_mcp.Table.{modify}
use kasane_mcp.Tx.{Faults}
use kasane_mcp.Tx.Rules.{
  Sat, Sat-pure, Sat-option, Sat-step, Sat-reads, Sat-weaken, Sat-exec_last, transact-rule,
}
use kasane_mcp.Core.Ids.{valid_uuid}
use kasane_mcp.Store.Schema.{Env, Db, MemoryRow, EventKind, in_profile, row_in, cast_tx-Sat}
use kasane_mcp.Store.Outbox.{outbox_tx, enqueue}
use kasane_mcp.Store.Consistent.{IsConsistent, row-WellFormed, write-IsConsistent}
use kasane_mcp.Store.Remember.Steps.{rewrite_row}
use kasane_mcp.Store.Remember.Outcome.{IsLive, row_in-IsLive}
use kasane_mcp.Store.Records.{forgotten_row, forget_memory, forget_tx, forget}

-- A row with nothing left of its text, marked as deleted under the next revision.
abbrev pub redacted_row : ℕ → MemoryRow → MemoryRow
redacted_row now row = record {
  kind = row.kind;
  workspace_id = row.workspace_id;
  title = [];
  content = [];
  tags = [];
  source = [];
  revision = row.revision + 1;
  indexed_revision = 0;
  idempotency_key = row.idempotency_key;
  deleted = true;
  created_at = row.created_at;
  updated_at = now;
}

-- The memory was not there, or its text is gone and its removal is queued.
pub data Forgotten (now : ℕ) (w id : Str) (db db' : Db) : Type 0 where
  absent : row_in w id false db ≡ none → db' ≡ db → Forgotten now w id db db'
  redacted :
      (row : MemoryRow)
      → IsLive w id db row
      → db' ≡ record db {
        memories = modify id (redacted_row now) db.memories;
        outbox = enqueue now id EventKind.delete (row.revision + 1) db.outbox;
      }
      → Forgotten now w id db db'

forget_memory-none :
    (now : ℕ) (w id : Str) (db db1 : Db)
    → forget_memory now w id db ≡ ok (none, db1)
    → (row_in w id false db ≡ none) × (db1 ≡ db)
unfolding forget_memory rewrite_row
forget_memory-none now w id db db1 h = ground arith

forget_memory-some :
    (now : ℕ) (w id : Str) (db : Db) (new : MemoryRow) (db1 : Db)
    → forget_memory now w id db ≡ ok (some new, db1)
    → (row : MemoryRow) × (row_in w id false db ≡ some row)
      × (new ≡ forgotten_row now row)
      × (db1 ≡ record db { memories = modify id (forgotten_row now) db.memories })
unfolding forget_memory
forget_memory-some now w id db new db1 h = elim (Option-cases (row_in w id false db)) [
  | inl e ↦ absurd (unfold rewrite_row in ground arith)
  | inr (row, e) ↦ (row, e, unfold rewrite_row in ground arith, unfold rewrite_row in ground arith)
]

-- The workspace and the memory that were named, and what was done.
pub record Outcome (env : Env) (now : ℕ) (ws memory_id : Str) (db db' : Db) : Type 0 where
  pub w : Str
  pub id : Str
  pub ws_reads : env.uuid ws ≡ some w
  pub id_reads : env.uuid memory_id ≡ some id
  pub forgotten : Forgotten now w id db db'

forget_tx-Sat :
    (env : Env) (now : ℕ) (ws memory_id : Str) (db : Db)
    → Sat (forget_tx env now ws memory_id) db (λ _ db'. Outcome env now ws memory_id db db')
unfolding forget_tx outbox_tx forgotten_row
forget_tx-Sat env now ws memory_id db = Sat-reads _ (cast_tx-Sat env ws db) (λ w nw.
    Sat-reads _ (cast_tx-Sat env memory_id db) (λ id ni.
      Sat-weaken (λ _ db' r. record { w = w; id = id; ws_reads = nw; id_reads = ni; forgotten = r })
        (Sat-step (forget_memory now w id) _ db (λ out db1 e.
          Sat-option out db1
            (λ gone.
              let (missing, same) = forget_memory-none now w id db db1 (cc (e, gone)) in
              Sat-pure tt db1 (absent missing same))
            (λ new there.
              let (row, found, new_eq, db_eq) =
                forget_memory-some now w id db new db1 (cc (e, there)) in
              Sat-exec_last _ db1
                (redacted row (row_in-IsLive w id db found) (cc (db_eq, new_eq))))))))

-- Either an error and the tables as they were, or the outcome.
pub data Settled (env : Env) (now : ℕ) (ws memory_id : Str) (db : Db)
    : Result (Unit {0}) → Db → Type 0 where
  refused : (e : Error) → Settled env now ws memory_id db (err e) db
  done :
      {db' : Db} → Outcome env now ws memory_id db db' → Settled env now ws memory_id db (ok tt) db'

-- Whatever the arguments, the tables and the statements that fail: Forget returns an error and
-- leaves the tables as they were; or no live memory of the workspace has the ID and nothing is
-- written; or the text of that memory is removed, its row is marked as deleted under the next
-- revision, and its removal is queued.
pub forget-Settled :
    (env : Env) (now : ℕ) (ws id : Str) (db : Db) (fs : Faults)
    → Settled env now ws id db (forget env now ws id db fs).0 (forget env now ws id db fs).1
unfolding forget
forget-Settled env now ws id db fs =
    if-rule (λ (p : Result (Unit {0}) × Db). Settled env now ws id db p.0 p.1) (not (valid_uuid id))
      (λ _. refused invalid)
      (λ _.
        transact-rule (Settled env now ws id db) (forget_tx env now ws id) db fs refused
          (Sat-weaken (λ _ db' r. done r) (forget_tx-Sat env now ws id db)))

Forgotten-IsConsistent :
    {now : ℕ} {w id : Str} {db db' : Db}
    → IsConsistent db
    → Forgotten now w id db db'
    → IsConsistent db'
Forgotten-IsConsistent c (absent missing same) = subst IsConsistent (sym same) c
Forgotten-IsConsistent {now} {w} {id} {db} c (redacted row l db_eq) =
    let (revised, formed) = row-WellFormed c id l.found in
    subst IsConsistent (sym db_eq) (
      write-IsConsistent c now id EventKind.delete (row.revision + 1) (redacted_row now) row l.found
        (omega arith) (ground arith) (omega arith) (λ _. refl)
        (λ v inside. absurd (unfold in_profile in ground arith)))

Settled-IsConsistent :
    {env : Env} {now : ℕ} {ws id : Str} {db db' : Db} {r : Result (Unit {0})}
    → IsConsistent db
    → Settled env now ws id db r db'
    → IsConsistent db'
Settled-IsConsistent c (refused e) = c
Settled-IsConsistent c (done o) = Forgotten-IsConsistent c o.forgotten

pub forget-IsConsistent :
    (env : Env) (now : ℕ) (ws id : Str) (db : Db) (fs : Faults)
    → IsConsistent db
    → IsConsistent (forget env now ws id db fs).1
forget-IsConsistent env now ws id db fs c =
    Settled-IsConsistent c (forget-Settled env now ws id db fs)
