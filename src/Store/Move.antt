-- ===== src/Store/Move.antt =====
-- `Store.Move` of internal/store/store.go.
pub mod Outcome
use kasane_mcp.Prelude.{
  ℕ, ◌+◌, Bool, true, false, ◌&&◌, ◌||◌, not, List, [], ◌∷◌, Option, none, some, Str, str_eq, ltb,
  ◌==◌, ltb_ℤ, ℤ, pos, is_some, if◌then◌else◌, Result, err, invalid, conflict, not_found,
}
use kasane_mcp.Table.{lookup}
use kasane_mcp.Tx.{Tx, Faults, pure, raise, statement, query, ◌>>=◌, ◌>>◌, transact}
use kasane_mcp.Core.Types.{Memory}
use kasane_mcp.Core.Ids.{valid_uuid}
use kasane_mcp.Store.Schema.{
  Env, Db, MemoryRow, EventKind, is_profile, scan_memory, row_in, cast_tx,
}
use kasane_mcp.Store.Outbox.{outbox_tx}
use kasane_mcp.Store.Remember.Steps.{pending, limit_profile, rewrite_row}
use kasane_mcp.Store.Remember.Update.{revision_is}

-- Go's `<` on strings.
unfoldable pub str_ltb : Str → Str → Bool
str_ltb [] [] = false
str_ltb [] (d ∷ t) = true
str_ltb (c ∷ s) [] = false
str_ltb (c ∷ s) (d ∷ t) = ltb c d || (c == d && str_ltb s t)

-- SELECT id FROM workspaces WHERE id=$1::uuid FOR UPDATE
unfoldable pub lock_tx : Env → Str → Tx Db Str
lock_tx env ws = do
  w ← cast_tx env ws
  found ← query (λ (db : Db). is_some (lookup w db.workspaces))
  if found then pure w else raise not_found

-- The two locks, in the order of the texts; the result is in the order of the arguments.
unfoldable pub lock_both_tx : Env → Str → Str → Tx Db (Str × Str)
unfolding str_ltb
lock_both_tx env source target =
    if str_ltb target source
    then (do t ← lock_tx env target; s ← lock_tx env source; pure (s, t))
    else (do s ← lock_tx env source; t ← lock_tx env target; pure (s, t))

unfoldable pub moved_row : ℕ → Str → MemoryRow → MemoryRow
moved_row now target row = record row {
  workspace_id = target;
  idempotency_key = none;
  revision = row.revision + 1;
  indexed_revision = 0;
  updated_at = now;
}

-- UPDATE memories SET … WHERE id … AND workspace_id … AND deleted=false AND revision=$4 RETURNING …
unfoldable pub move_memory : ℕ → Str → Str → Str → ℤ → Db → Result (Option MemoryRow × Db)
move_memory now source target id expected db =
    rewrite_row id (moved_row now target)
      (elim (row_in source id false db) [
        | none ↦ none
        | some row ↦ if revision_is expected row then some row else none
      ])
      db

unfoldable pub transfer_tx : ℕ → Str → Str → Str → ℤ → Tx Db Memory
transfer_tx now source target id expected = do
  out ← statement (move_memory now source target id expected)
  elim out [
    | none ↦ raise conflict
    | some row ↦ do
      outbox_tx now id EventKind.upsert row.revision
      pure (pending (scan_memory id row))
  ]

unfoldable pub move_tx : Env → ℕ → Str → Str → Str → ℤ → Tx Db Memory
move_tx env now source_ws target_ws memory_id expected = do
  workspaces ← lock_both_tx env source_ws target_ws
  id ← cast_tx env memory_id
  found ← query (row_in workspaces.0 id false)
  elim found [
    | none ↦ raise conflict
    | some m ↦
        limit_profile (is_profile m.kind) workspaces.1
          (transfer_tx now workspaces.0 workspaces.1 id expected)
  ]

-- The conditions of the first return.
unfoldable pub bad_move : Str → Str → Str → ℤ → Bool
bad_move source target id expected =
    not (valid_uuid source)
    || not (valid_uuid target)
    || not (valid_uuid id)
    || ltb_ℤ expected (pos 1)
    || str_eq source target

unfoldable pub move : Env → ℕ → Str → Str → Str → ℤ → Db → Faults → Result Memory × Db
move env now source target id expected db fs =
    if bad_move source target id expected
    then (err invalid, db)
    else transact (move_tx env now source target id expected) db fs
