-- ===== src/Store/Remember/Update.antt =====
-- The update of `Store.Remember` (internal/store/store.go).
use text.Mathlib.Text.{◌==◌ as text_eq}
use kasane_mcp.Prelude.{
  ℕ, ◌+◌, Bool, true, false, ◌&&◌, ◌||◌, not, Option, none, some, Str, ◌==◌, ltb_ℤ, ℤ, pos,
  if◌then◌else◌, Result, conflict, not_found,
}
use kasane_mcp.Tx.{Tx, pure, raise, statement, query, ◌>>=◌, ◌>>◌}
use kasane_mcp.Core.Types.{Memory, RememberInput}
use kasane_mcp.Store.Schema.{
  Env, Db, MemoryRow, EventKind, is_profile, scan_memory, row_in, cast_tx,
}
use kasane_mcp.Store.Outbox.{outbox_tx}
use kasane_mcp.Store.Remember.Steps.{pending, limit_profile, rewrite_row}

-- UPDATE memories SET … WHERE workspace_id … AND id … AND revision=$8 RETURNING …
unfoldable pub updated_row : ℕ → RememberInput → MemoryRow → MemoryRow
updated_row now in' row = record row {
  kind = in'.kind;
  title = in'.title;
  content = in'.content;
  tags = in'.tags;
  source = in'.source;
  revision = row.revision + 1;
  indexed_revision = 0;
  updated_at = now;
}

unfoldable pub revision_is : ℤ → MemoryRow → Bool
revision_is (pos n) row = row.revision == n
revision_is (ℤ.negsuc n) row = false

unfoldable pub update_memory : ℕ → Str → Str → RememberInput → Db → Result (Option MemoryRow × Db)
update_memory now id w in' db =
    rewrite_row id (updated_row now in')
      (elim (row_in w id true db) [
        | none ↦ none
        | some row ↦ if revision_is in'.expected_revision row then some row else none
      ])
      db

unfoldable pub rewrite_tx : ℕ → Str → Str → RememberInput → Tx Db Memory
rewrite_tx now id w in' = do
  out ← statement (update_memory now id w in')
  elim out [
    | none ↦ raise conflict
    | some row ↦ do
      outbox_tx now id EventKind.upsert row.revision
      pure (pending (scan_memory id row))
  ]

unfoldable pub stale : RememberInput → MemoryRow → Bool
unfolding revision_is
stale in' row = ltb_ℤ in'.expected_revision (pos 1) || not (revision_is in'.expected_revision row)

unfoldable pub update_tx : Env → ℕ → Str → RememberInput → Tx Db Memory
update_tx env now w in' = do
  id ← cast_tx env in'.id
  found ← query (row_in w id false)
  elim found [
    | none ↦ raise not_found
    | some m ↦
        if stale in' m
        then raise conflict
        else limit_profile (text_eq m.kind "memory" && is_profile in'.kind) w
            (rewrite_tx now id w in')
  ]
