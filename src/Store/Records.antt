-- ===== src/Store/Records.antt =====
-- `Store.Get`, `Store.Forget` and `Store.Rehydrate` of internal/store/store.go.
pub mod Forgotten
pub mod Current
use kasane_mcp.Prelude.{
  ℕ, ◌+◌, Bool, true, false, not, List, [], ◌∷◌, Option, none, some, Str, ◌==◌, length,
  if◌then◌else◌, Result, err, invalid, not_found,
}
use kasane_mcp.Tx.{Tx, Faults, pure, raise, statement, query, ◌>>=◌, ◌>>◌, transact, run}
use kasane_mcp.Core.Types.{Memory, Hit}
use kasane_mcp.Core.Ids.{valid_uuid}
use kasane_mcp.Store.Schema.{Env, Db, MemoryRow, EventKind, scan_memory, row_in, cast_tx}
use kasane_mcp.Store.Outbox.{outbox_tx}
use kasane_mcp.Store.Remember.Steps.{rewrite_row}

-- SELECT … WHERE workspace_id=$1::uuid AND id=$2::uuid AND deleted=false
-- on the tables `seen` that the statement sees.
unfoldable pub find_tx : Env → (Db → Db) → Str → Str → Tx Db (Option Memory)
find_tx env seen ws memory_id = do
  w ← cast_tx env ws
  id ← cast_tx env memory_id
  found ← query (λ (db : Db). row_in w id false (seen db))
  elim found [ none ↦ pure none | some row ↦ pure (some (scan_memory id row)) ]

unfoldable pub get_tx : Env → Str → Str → Tx Db Memory
get_tx env ws id = do
  found ← find_tx env (λ db. db) ws id
  elim found [ none ↦ raise not_found | some m ↦ pure m ]

unfoldable pub get : Env → Str → Str → Db → Faults → Result Memory × Db
get env ws id db fs =
    if not (valid_uuid id) then (err invalid, db) else run (get_tx env ws id) db fs

unfoldable pub forgotten_row : ℕ → MemoryRow → MemoryRow
forgotten_row now row = record row {
  title = [];
  content = [];
  tags = [];
  source = [];
  deleted = true;
  revision = row.revision + 1;
  indexed_revision = 0;
  updated_at = now;
}

-- UPDATE memories SET … deleted=true … WHERE … AND deleted=false RETURNING revision
unfoldable pub forget_memory : ℕ → Str → Str → Db → Result (Option MemoryRow × Db)
forget_memory now w id db = rewrite_row id (forgotten_row now) (row_in w id false db) db

unfoldable pub forget_tx : Env → ℕ → Str → Str → Tx Db (Unit {0})
forget_tx env now ws memory_id = do
  w ← cast_tx env ws
  id ← cast_tx env memory_id
  out ← statement (forget_memory now w id)
  elim out [ none ↦ pure tt | some row ↦ outbox_tx now id EventKind.delete row.revision ]

unfoldable pub forget : Env → ℕ → Str → Str → Db → Faults → Result (Unit {0}) × Db
forget env now ws id db fs =
    if not (valid_uuid id) then (err invalid, db) else transact (forget_tx env now ws id) db fs

-- The loop over the hits: one that is gone, moved or outdated is skipped. Every hit is one SELECT on
-- the pool: `seen n` are the tables that the SELECT of the hit with `n` hits behind it sees.
unfoldable pub rehydrate_tx : Env → Str → (ℕ → Db) → List Hit → Tx Db (List Memory)
rehydrate_tx env ws seen [] = pure []
rehydrate_tx env ws seen (h ∷ hits) =
    let rest = rehydrate_tx env ws seen hits in
    let with_hit = do
      found ← find_tx env (λ _. seen (length hits)) ws h.id
      elim found [
        | none ↦ rest
        | some m ↦
            if m.revision == h.revision
            then (do ms ← rest; pure (record m { score = h.score } ∷ ms))
            else rest
      ]
    in if not (valid_uuid h.id) then rest else with_hit

unfoldable pub rehydrate : Env → Str → (ℕ → Db) → List Hit → Db → Faults → Result (List Memory) × Db
rehydrate env ws seen hits = run (rehydrate_tx env ws seen hits)
