-- ===== src/Store/Remember/Steps.antt =====
-- What the writes of internal/store/store.go share: the status of a fresh revision, the limit of the
-- development profile, and an UPDATE of one memory that counts its revision.
use kasane_mcp.Prelude.{
  Bool, true, false, Option, none, some, Str, leb, if◌then◌else◌, Result, ok, err, invalid,
  unavailable,
}
use kasane_mcp.Table.{modify}
use kasane_mcp.Tx.{Tx, raise, query, ◌>>=◌}
use kasane_mcp.Core.Types.{Memory}
use kasane_mcp.Store.Schema.{Db, MemoryRow, profile_count, max_bigint}

unfoldable pub pending : Memory → Memory
pending m = record m { indexing_status = "pending" }

-- The limit of the development profile.
unfoldable pub limit_profile : {A : Type 0} → Bool → Str → Tx Db A → Tx Db A
limit_profile false w rest = rest
limit_profile true w rest = do
  n ← query (profile_count w)
  if leb 100 n then raise invalid else rest

-- The row that an UPDATE selects is written anew and returned; no row is no value; a revision
-- beyond the largest bigint fails.
unfoldable pub rewrite_row :
    Str → (MemoryRow → MemoryRow) → Option MemoryRow → Db → Result (Option MemoryRow × Db)
rewrite_row id f none db = ok (none, db)
rewrite_row id f (some row) db =
    if leb max_bigint row.revision
    then err unavailable
    else ok (some (f row), record db { memories = modify id f db.memories })
