-- ===== src/Store/Move/Outcome.antt =====
-- The outcomes of `Store.Move` (internal/store/store.go).
use kasane_mcp.Prelude.{
  ℕ, ◌+◌, ◌≡◌, refl, sym, subst, none, pos, true, false, some, Str, ℤ, is_some, if-rule, arith,
  Result, ok, err, Error, invalid, conflict, not_found, inr,
}
use kasane_mcp.Table.{lookup, modify}
use kasane_mcp.Tx.{Faults}
use kasane_mcp.Tx.Rules.{
  Sat, Reads, Sat-pure, Sat-raise, Sat-if, Sat-option, Sat-step, Sat-query, Sat-exec, Sat-reads,
  Sat-weaken, transact-rule,
}
use kasane_mcp.Core.Types.{Memory}
use kasane_mcp.Store.Schema.{
  Env, Db, MemoryRow, EventKind, is_profile, in_profile, scan_memory, row_in, cast_tx-Sat,
}
use kasane_mcp.Store.Outbox.{outbox_tx, enqueue}
use kasane_mcp.Store.Consistent.{IsConsistent, live-WellFormed, row-WellFormed, write-IsConsistent}
use kasane_mcp.Store.Remember.Steps.{pending, rewrite_row}
use kasane_mcp.Store.Remember.Update.{revision_is}
use kasane_mcp.Store.Remember.Outcome.{
  Named, UnderLimit, IsLive, row_in-IsLive, revision_is-pos, waiting, limit_profile-Sat,
}
use kasane_mcp.Store.Remember.Keeps.{in_profile_moved}
use kasane_mcp.Store.Move.{
  lock_tx, lock_both_tx, moved_row, move_memory, transfer_tx, move_tx, bad_move, move,
}

-- A moved row: its text in the target, with no idempotency key, under the next revision.
abbrev pub transferred_row : ℕ → Str → MemoryRow → MemoryRow
transferred_row now target row = record {
  kind = row.kind;
  workspace_id = target;
  title = row.title;
  content = row.content;
  tags = row.tags;
  source = row.source;
  revision = row.revision + 1;
  indexed_revision = 0;
  idempotency_key = none;
  deleted = row.deleted;
  created_at = row.created_at;
  updated_at = now;
}

pub record Moved (now : ℕ) (source target id : Str) (expected : ℤ) (db : Db) (m : Memory) (db' : Db)
    : Type 0 where
  pub row : MemoryRow
  pub there : IsLive source id db row
  pub current : expected ≡ pos row.revision
  pub limit : UnderLimit (is_profile row.kind) target db
  pub m_eq : m ≡ waiting id (transferred_row now target row)
  pub db_eq : db' ≡ record db {
    memories = modify id (transferred_row now target) db.memories;
    outbox = enqueue now id EventKind.upsert (row.revision + 1) db.outbox;
  }

lock_tx-Sat : (env : Env) (ws : Str) (db : Db) → Reads (lock_tx env ws) db (Named env ws db)
unfolding lock_tx
lock_tx-Sat env ws db = Sat-reads _ (cast_tx-Sat env ws db) (λ w reads_as. Sat-query _ _ db (
    Sat-if (is_some (lookup w db.workspaces)) db
      (λ there. Sat-pure w db (refl, record { reads_as = reads_as; exists = there }))
      (λ _. Sat-raise not_found db)))

lock_both_tx-Sat :
    (env : Env) (source target : Str) (db : Db)
    → Reads
        (lock_both_tx env source target)
        db
        (λ ws. Named env source db ws.0 × Named env target db ws.1)
unfolding lock_both_tx
lock_both_tx-Sat env source target db =
    Sat-if _ db
      (λ _. Sat-reads _ (lock_tx-Sat env target db) (λ t nt.
        Sat-reads _ (lock_tx-Sat env source db) (λ s ns. Sat-pure (s, t) db (refl, (ns, nt)))))
      (λ _. Sat-reads _ (lock_tx-Sat env source db) (λ s ns.
        Sat-reads _ (lock_tx-Sat env target db) (λ t nt. Sat-pure (s, t) db (refl, (ns, nt)))))

move_memory-ok :
    (now : ℕ) (source target id : Str) (expected : ℤ) (db : Db) (m row : MemoryRow) (db1 : Db)
    → row_in source id false db ≡ some m
    → move_memory now source target id expected db ≡ ok (some row, db1)
    → (revision_is expected m ≡ true)
      × (row ≡ moved_row now target m)
      × (db1 ≡ record db { memories = modify id (moved_row now target) db.memories })
unfolding move_memory rewrite_row
move_memory-ok now source target id expected db m row db1 found h = ground arith

transfer_tx-Sat :
    (now : ℕ) (source target id : Str) (expected : ℤ) (db : Db) (m : MemoryRow)
    → row_in source id false db ≡ some m
    → UnderLimit (is_profile m.kind) target db
    → Sat (transfer_tx now source target id expected) db (Moved now source target id expected db)
unfolding transfer_tx outbox_tx moved_row pending scan_memory
transfer_tx-Sat now source target id expected db m found limit =
    Sat-step (move_memory now source target id expected) _ db (λ out db1 e.
      Sat-option out db1 (λ _. Sat-raise conflict db1)
        (λ row row_eq.
          let (current, new, db_eq) =
            move_memory-ok now source target id expected db m row db1 found (cc (e, row_eq)) in
          Sat-exec _ _ db1 (
            Sat-pure _ _ (record {
              row = m;
              there = row_in-IsLive source id db found;
              current = revision_is-pos expected m current;
              limit = limit;
              m_eq = cc new;
              db_eq = cc (db_eq, new);
            }))))

-- The two workspaces, and what was done.
pub record Transfer (env : Env) (now : ℕ) (source target memory_id : Str) (expected : ℤ) (db : Db)
    (m : Memory) (db' : Db) : Type 0 where
  pub id : Str
  pub id_reads : env.uuid memory_id ≡ some id
  pub from : Str
  pub to : Str
  pub from_named : Named env source db from
  pub to_named : Named env target db to
  pub moved : Moved now from to id expected db m db'

move_tx-Sat :
    (env : Env) (now : ℕ) (source target memory_id : Str) (expected : ℤ) (db : Db)
    → Sat
        (move_tx env now source target memory_id expected)
        db
        (Transfer env now source target memory_id expected db)
unfolding move_tx
move_tx-Sat env now source target memory_id expected db =
    Sat-reads _ (lock_both_tx-Sat env source target db) (λ (s, t) (ns, nt).
      Sat-reads _ (cast_tx-Sat env memory_id db) (λ id reads. Sat-query (row_in s id false) _ db (
        Sat-option (row_in s id false db) db (λ _. Sat-raise conflict db)
          (λ m found. limit_profile-Sat (is_profile m.kind) t _ db (λ limit.
            Sat-weaken
              (λ m db' r. record {
                id = id;
                id_reads = reads;
                from = s;
                to = t;
                from_named = ns;
                to_named = nt;
                moved = r;
              })
              (transfer_tx-Sat now s t id expected db m found limit))))))

-- `Move` returns an error and leaves the tables as they were, or it has moved the memory.
pub data Outcome (env : Env) (now : ℕ) (source target memory_id : Str) (expected : ℤ) (db : Db)
    : Result Memory → Db → Type 0 where
  refused : (e : Error) → Outcome env now source target memory_id expected db (err e) db
  done :
      {m : Memory} {db' : Db}
      → Transfer env now source target memory_id expected db m db'
      → Outcome env now source target memory_id expected db (ok m) db'

-- Whatever the arguments, the tables and the statements that fail: Move returns an error and
-- leaves the tables as they were; or both workspaces exist, and the live row of the source with the
-- given ID and the expected revision gets the target as its workspace and loses its idempotency
-- key under the next revision, its text as it was, its job queued, and it is returned. A
-- profile memory finds fewer than 100 profile memories in the target.
pub move-Outcome :
    (env : Env) (now : ℕ) (source target id : Str) (expected : ℤ) (db : Db) (fs : Faults)
    → Outcome env now source target id expected db
        (move env now source target id expected db fs).0
        (move env now source target id expected db fs).1
unfolding move
move-Outcome env now source target id expected db fs =
    if-rule (λ (p : Result Memory × Db). Outcome env now source target id expected db p.0 p.1)
      (bad_move source target id expected) (λ _. refused invalid)
      (λ _.
        transact-rule (Outcome env now source target id expected db)
          (move_tx env now source target id expected) db fs refused
          (Sat-weaken (λ m db' r. done r) (move_tx-Sat env now source target id expected db)))

Moved-IsConsistent :
    {now : ℕ} {source target id : Str} {expected : ℤ} {db db' : Db} {m : Memory}
    → IsConsistent db
    → Moved now source target id expected db m db'
    → IsConsistent db'
Moved-IsConsistent {now} {source} {target} {id} {expected} {db} c v =
    let (revised, formed) = row-WellFormed c id v.there.found in
    subst IsConsistent (sym v.db_eq) (
      write-IsConsistent c now id EventKind.upsert (v.row.revision + 1) (transferred_row now target)
        v.row v.there.found (omega arith) (live-WellFormed _ formed.kind_known v.there.alive)
        (omega arith) (λ e. absurd (cc e))
        (λ w inside. inr (
          in_profile_moved w target (transferred_row now target v.row) db _ refl v.limit
            (unfold in_profile in ground arith) inside)))

Outcome-IsConsistent :
    {env : Env} {now : ℕ} {source target id : Str} {expected : ℤ} {db db' : Db} {r : Result Memory}
    → IsConsistent db
    → Outcome env now source target id expected db r db'
    → IsConsistent db'
Outcome-IsConsistent c (refused e) = c
Outcome-IsConsistent c (done t) = Moved-IsConsistent c t.moved

pub move-IsConsistent :
    (env : Env) (now : ℕ) (source target id : Str) (expected : ℤ) (db : Db) (fs : Faults)
    → IsConsistent db
    → IsConsistent (move env now source target id expected db fs).1
move-IsConsistent env now source target id expected db fs c =
    Outcome-IsConsistent c (move-Outcome env now source target id expected db fs)
