-- ===== src/Store/Worker/Requeue.antt =====
-- `Store.Reindex` (internal/store/store.go) and the consistency of the tables.
use kasane_mcp.Prelude.{
  ℕ, refl, List, [], ◌∷◌, Option, none, some, Str, arith, str_eq_refl, inl, if-rule,
}
use kasane_mcp.Table.{Table, lookup, modify}
use kasane_mcp.Tx.{Faults}
use kasane_mcp.Tx.Rules.{
  Sat, Reads, Sat-pure, Sat-if, Sat-query, Sat-exec, Sat-reads, transact-rule,
}
use kasane_mcp.Core.Validation.{is_empty}
use kasane_mcp.Store.Schema.{Env, Db, MemoryRow, EventKind, in_profile, cast_tx-Sat}
use kasane_mcp.Store.Outbox.{outbox_tx, enqueue}
use kasane_mcp.Store.Consistent.{IsConsistent, Keyed, row-WellFormed, write-IsConsistent}
use kasane_mcp.Store.Growth.{
  Still, Later, Later-refl, Later-trans, Later-modify, Later-insert, Still-Later,
}
use kasane_mcp.Store.Worker.{
  live_in, live_items, outdated_row, requeue_tx, scope_tx, reindex_tx, reindex,
}

abbrev AllStill : Table MemoryRow → List (Str × ℕ) → Type 0
AllStill t [] = Unit {0}
AllStill t ((id, rev) ∷ items) = Still t id rev × AllStill t items

AllStill-Later :
    (t t' : Table MemoryRow) (items : List (Str × ℕ))
    → Later t t'
    → AllStill t items
    → AllStill t' items
AllStill-Later t t' [] later h = tt
AllStill-Later t t' ((id, rev) ∷ items) later h =
    (Still-Later t t' later h.0, AllStill-Later t t' items later h.1)

-- The rows that were read are there, each under its revision.
live_items-AllStill : (w : Option Str) (t : Table MemoryRow) → Keyed t → AllStill t (live_items w t)
unfolding live_items
live_items-AllStill w [] h = tt
live_items-AllStill w ((id, row) ∷ t) h =
    let rest =
      AllStill-Later t ((id, row) ∷ t) (live_items w t) (Later-insert id row t h.0)
        (live_items-AllStill w t h.1) in
    if-rule (AllStill ((id, row) ∷ t)) (live_in w row)
      (λ live. (
        record { row = row; found = unfold lookup in rw (str_eq_refl id); grown = omega arith },
        rest,
      ))
      (λ _. rest)

Later-outdated : (id : Str) (t : Table MemoryRow) → Later t (modify id outdated_row t)
unfolding outdated_row
Later-outdated id t = Later-modify id outdated_row t (λ row. omega arith)

-- One round of the loop.
requeued-IsConsistent :
    (now : ℕ) (id : Str) (rev : ℕ) (db : Db)
    → IsConsistent db
    → Still db.memories id rev
    → IsConsistent (record db {
      memories = modify id outdated_row db.memories;
      outbox = enqueue now id EventKind.upsert rev db.outbox;
    })
unfolding outdated_row in_profile
requeued-IsConsistent now id rev db c l =
    let (revised, formed) = row-WellFormed c id l.found in
    write-IsConsistent c now id EventKind.upsert rev outdated_row l.row l.found revised
      (ground arith) l.grown (λ e. absurd (cc e)) (λ w inside. inl inside)

requeue_tx-Sat :
    (now : ℕ) (items : List (Str × ℕ)) (start db : Db)
    → IsConsistent db
    → Later start.memories db.memories
    → AllStill db.memories items
    → Sat (requeue_tx now items) db (λ _ db'. IsConsistent db' × Later start.memories db'.memories)
unfolding requeue_tx outbox_tx
requeue_tx-Sat now [] start db c later h = Sat-pure tt db (c, later)
requeue_tx-Sat now ((id, rev) ∷ items) start db c later h =
    let more = Later-outdated id db.memories in
    Sat-exec _ _ db (
      Sat-exec _ _ _ (
        requeue_tx-Sat now items start _ (requeued-IsConsistent now id rev db c h.0)
          (Later-trans start.memories db.memories _ later more)
          (AllStill-Later db.memories _ items more h.1)))

scope_tx-Sat : (env : Env) (ws : Str) (db : Db) → Reads (scope_tx env ws) db (λ _. Unit {0})
unfolding scope_tx
scope_tx-Sat env ws db =
    Sat-if (is_empty ws) db (λ _. Sat-pure none db (refl, tt))
      (λ _. Sat-reads _ (cast_tx-Sat env ws db) (λ w _. Sat-pure (some w) db (refl, tt)))

reindex_tx-Sat :
    (env : Env) (now : ℕ) (ws : Str) (seen db : Db)
    → IsConsistent db
    → Keyed seen.memories
    → Later seen.memories db.memories
    → Sat
        (reindex_tx env now ws seen)
        db
        (λ _ db'. IsConsistent db' × Later db.memories db'.memories)
unfolding reindex_tx
reindex_tx-Sat env now ws seen db c keyed later = Sat-reads _ (scope_tx-Sat env ws db) (λ scope _.
    Sat-query _ _ db (
      requeue_tx-Sat now _ db db c (Later-refl db.memories) (
        AllStill-Later seen.memories db.memories _ later
          (live_items-AllStill scope seen.memories keyed))))

-- A reindex keeps the tables consistent, also when others have written since its SELECT.
pub reindex-IsConsistent :
    (env : Env) (now : ℕ) (ws : Str) (seen db : Db) (fs : Faults)
    → IsConsistent db
    → Keyed seen.memories
    → Later seen.memories db.memories
    → IsConsistent (reindex env now ws seen db fs).1
      × Later db.memories (reindex env now ws seen db fs).1.memories
unfolding reindex
reindex-IsConsistent env now ws seen db fs c keyed later =
    transact-rule (λ _ db'. IsConsistent db' × Later db.memories db'.memories)
      (reindex_tx env now ws seen) db fs (λ _. (c, Later-refl db.memories))
      (reindex_tx-Sat env now ws seen db c keyed later)
