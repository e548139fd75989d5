-- ===== src/Store/Worker/Reindexed.antt =====
-- What `Store.Reindex` (internal/store/store.go) leaves to the worker.
use kasane_mcp.Prelude.{
  ℕ, ◌≡◌, refl, sym, ◌∙◌, subst, ◌⊎◌, inl, inr, true, false, List, [], ◌∷◌, Option, none, some, Str,
  str_eq, str_eq_iff, str_eq_refl, arith, Bool-cases, Option-cases, ok, if-rule,
}
use kasane_mcp.Table.{Table, lookup, modify}
use kasane_mcp.Table.Laws.{lookup-modify}
use kasane_mcp.Tx.{Faults}
use kasane_mcp.Tx.Rules.{
  Sat, Reads, Sat-pure, Sat-query, Sat-exec, Sat-reads, Sat-weaken, transact-ok,
}
use kasane_mcp.Core.Validation.{is_empty}
use kasane_mcp.Store.Schema.{Env, Db, MemoryRow, JobRow, EventKind, cast_tx-Sat}
use kasane_mcp.Store.Outbox.{outbox_tx, enqueue, first_queued, enqueue-lookup}
use kasane_mcp.Store.Worker.{
  live_in, live_items, outdated_row, requeue_tx, scope_tx, reindex_tx, reindex,
}

-- A memory that the worker will hand to the index again: it has a job that is due at once, with no
-- attempt counted, and its row counts as not indexed.
pub record IsRequeued (now : ℕ) (db : Db) (id : Str) : Type 0 where
  pub job : JobRow
  pub queued : lookup id db.outbox ≡ some job
  pub event : job.event_kind ≡ EventKind.upsert
  pub fresh : job.attempts ≡ 0
  pub due : job.next_attempt ≡ now
  pub outdated : (row : MemoryRow) → lookup id db.memories ≡ some row → row.indexed_revision ≡ 0

abbrev round : ℕ → Str → ℕ → Db → Db
round now k rev db = record db {
  memories = modify k outdated_row db.memories;
  outbox = enqueue now k EventKind.upsert rev db.outbox;
}

outdated-zero :
    (k : Str) (t : Table MemoryRow) (row : MemoryRow)
    → lookup k (modify k outdated_row t) ≡ some row
    → row.indexed_revision ≡ 0
unfolding outdated_row
outdated-zero k t row h = elim (Option-cases (lookup k t)) [
  | inl e ↦ absurd (ground (arith, lookup-modify k k outdated_row t, str_eq_refl k))
  | inr (old, e) ↦ ground (arith, lookup-modify k k outdated_row t, str_eq_refl k)
]

round-made : (now : ℕ) (k : Str) (rev : ℕ) (db : Db) → IsRequeued now (round now k rev db) k
round-made now k rev db = record {
  job = record {
    event_kind = EventKind.upsert;
    revision = rev;
    attempts = 0;
    next_attempt = now;
    created_at = first_queued now (lookup k db.outbox);
  };
  queued = enqueue-lookup now k EventKind.upsert rev db.outbox k ∙ rw (str_eq_refl k) refl;
  event = refl;
  fresh = refl;
  due = refl;
  outdated = λ row h. outdated-zero k db.memories row h;
}

round-IsRequeued :
    (now : ℕ) (k : Str) (rev : ℕ) (db : Db) (id : Str)
    → IsRequeued now db id
    → IsRequeued now (round now k rev db) id
round-IsRequeued now k rev db id r = elim (Bool-cases (str_eq k id)) [
  | inl e ↦
      subst (λ (x : Str). IsRequeued now (round now k rev db) x) ((str_eq_iff k id).0 e)
        (round-made now k rev db)
  | inr e ↦ record {
    job = r.job;
    queued = enqueue-lookup now k EventKind.upsert rev db.outbox id ∙ rw e r.queued;
    event = r.event;
    fresh = r.fresh;
    due = r.due;
    outdated = λ row h.
        r.outdated row
          (let same = lookup-modify k id outdated_row db.memories in ground (arith, same, e, h));
  }
]

abbrev InItems : Str → List (Str × ℕ) → Type 0
InItems id [] = ⊥
InItems id ((k, rev) ∷ items) = (id ≡ k) ⊎ InItems id items

step-IsRequeued :
    (now : ℕ) (k : Str) (rev : ℕ) (items : List (Str × ℕ)) (db : Db) (id : Str)
    → IsRequeued now db id ⊎ InItems id ((k, rev) ∷ items)
    → IsRequeued now (round now k rev db) id ⊎ InItems id items
step-IsRequeued now k rev items db id (inl r) = inl (round-IsRequeued now k rev db id r)
step-IsRequeued now k rev items db id (inr (inl e)) =
    inl
      (subst (λ (x : Str). IsRequeued now (round now k rev db) x) (sym e) (round-made now k rev db))
step-IsRequeued now k rev items db id (inr (inr m)) = inr m

nothing_left :
    (now : ℕ) (db : Db) (id : Str) → IsRequeued now db id ⊎ InItems id [] → IsRequeued now db id
nothing_left now db id (inl r) = r
nothing_left now db id (inr m) = absurd m

requeue_tx-Requeued :
    (now : ℕ) (items : List (Str × ℕ)) (db : Db)
    → Sat
        (requeue_tx now items)
        db
        (λ _ db'. (id : Str) → IsRequeued now db id ⊎ InItems id items → IsRequeued now db' id)
unfolding requeue_tx outbox_tx
requeue_tx-Requeued now [] db = Sat-pure tt db (λ id h. nothing_left now db id h)
requeue_tx-Requeued now ((k, rev) ∷ items) db = Sat-exec _ _ db (
    Sat-exec _ _ _ (
      Sat-weaken (λ _ db' h id m. h id (step-IsRequeued now k rev items db id m))
        (requeue_tx-Requeued now items (round now k rev db))))

-- The rows that the SELECT is about.
abbrev InScope : Option Str → MemoryRow → Type 0
InScope none row = Unit {0}
InScope (some w) row = row.workspace_id ≡ w

live_in-scope :
    (scope : Option Str) (row : MemoryRow)
    → row.deleted ≡ false
    → InScope scope row
    → live_in scope row ≡ true
unfolding live_in
live_in-scope none row alive inside = ground arith
live_in-scope (some w) row alive inside = rw (alive, inside) (str_eq_refl w)

live_items-all :
    (scope : Option Str) (t : Table MemoryRow) (id : Str) (row : MemoryRow)
    → lookup id t ≡ some row
    → row.deleted ≡ false
    → InScope scope row
    → InItems id (live_items scope t)
unfolding live_items lookup
live_items-all scope [] id row h alive inside = absurd (cc h)
live_items-all scope ((k, v) ∷ t) id row h alive inside =
    let rest = live_items-all scope t id row in
    elim (Bool-cases (str_eq k id)) [
      | inl e ↦
          let same : v ≡ row = ground arith in
          let chosen : live_in scope v ≡ true = rw same (live_in-scope scope row alive inside) in
          rw chosen (inl (sym ((str_eq_iff k id).0 e)))
      | inr e ↦
          let later = rest (ground arith) alive inside in
          if-rule (λ (items : List (Str × ℕ)). InItems id items) (live_in scope v) (λ _. inr later)
            (λ _. later)
    ]

-- The scope that a text asks for: everything, or one workspace.
abbrev pub Asks : Env → Str → MemoryRow → Type 0
Asks env ws row =
    (is_empty ws ≡ true) ⊎ ((is_empty ws ≡ false) × (env.uuid ws ≡ some row.workspace_id))

scope_tx-Scope :
    (env : Env) (ws : Str) (db : Db) (row : MemoryRow)
    → Asks env ws row
    → Reads (scope_tx env ws) db (λ scope. InScope scope row)
unfolding scope_tx
scope_tx-Scope env ws db row (inl all) = rw all (Sat-pure none db (refl, tt))
scope_tx-Scope env ws db row (inr (one, reads)) =
    rw one (Sat-reads _ (cast_tx-Sat env ws db) (λ w e. Sat-pure (some w) db (refl, cc (reads, e))))

-- A reindex that succeeds leaves every memory that its SELECT has seen alive in its scope to the worker:
-- the memory has an index job that is due at once, with no attempt counted, and its row, if there is
-- one, counts as not indexed. The scope is all workspaces for an empty text, else the one named.
pub reindex-IsRequeued :
    (env : Env) (now : ℕ) (ws : Str) (seen db : Db) (fs : Faults) (id : Str) (row : MemoryRow)
    → lookup id seen.memories ≡ some row
    → row.deleted ≡ false
    → Asks env ws row
    → (reindex env now ws seen db fs).0 ≡ ok tt
    → IsRequeued now (reindex env now ws seen db fs).1 id
unfolding reindex reindex_tx
reindex-IsRequeued env now ws seen db fs id row found alive asks done =
    transact-ok (λ _ db'. IsRequeued now db' id) (reindex_tx env now ws seen) db fs tt
      (Sat-reads _ (scope_tx-Scope env ws db row asks) (λ scope inside. Sat-query _ _ db (
        Sat-weaken
          (λ _ db' h. h id (inr (live_items-all scope seen.memories id row found alive inside)))
          (requeue_tx-Requeued now (live_items scope seen.memories) db))))
      done
