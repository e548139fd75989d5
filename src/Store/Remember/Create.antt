-- ===== src/Store/Remember/Create.antt =====
-- The create of `Store.Remember` (internal/store/store.go), and its replay under an idempotency key.
use text.Mathlib.Text.{◌==◌ as text_eq}
use kasane_mcp.Prelude.{
  ℕ, Bool, true, false, ◌&&◌, ◌||◌, not, List, [], ◌∷◌, Option, none, some, Str, str_eq, is_some,
  if◌then◌else◌, Result, ok, err, conflict, unavailable,
}
use kasane_mcp.Table.{lookup, find_row}
use kasane_mcp.Tx.{Tx, pure, raise, statement, query, ◌>>=◌, ◌>>◌}
use kasane_mcp.Core.Types.{Memory, RememberInput}
use kasane_mcp.Core.Validation.{is_empty}
use kasane_mcp.Store.Schema.{Db, MemoryRow, EventKind, is_profile, scan_memory, row_in}
use kasane_mcp.Store.Outbox.{outbox_tx}
use kasane_mcp.Store.Remember.Steps.{pending, limit_profile}

-- tags = $5
unfoldable pub tags_eq : List Str → List Str → Bool
tags_eq [] [] = true
tags_eq [] (d ∷ t) = false
tags_eq (c ∷ s) [] = false
tags_eq (c ∷ s) (d ∷ t) = str_eq c d && tags_eq s t

unfoldable pub has_key : Str → Str → MemoryRow → Bool
has_key w key row =
    str_eq row.workspace_id w && elim row.idempotency_key [ none ↦ false | some k ↦ str_eq k key ]

-- title=$3 AND content=$4 AND tags=$5 AND source=$6 AND kind=$7
unfoldable pub same : RememberInput → MemoryRow → Bool
unfolding tags_eq
same in' row =
    str_eq row.title in'.title
    && str_eq row.content in'.content
    && tags_eq row.tags in'.tags
    && str_eq row.source in'.source
    && text_eq row.kind in'.kind

unfoldable pub idempotency : RememberInput → Option Str
idempotency in' = if is_empty in'.idempotency_key then none else some in'.idempotency_key

-- UNIQUE(workspace_id,idempotency_key): NULL is not equal to itself.
unfoldable pub key_taken : Str → Option Str → Db → Bool
key_taken w none db = false
key_taken w (some key) db = is_some (find_row (has_key w key) db.memories)

unfoldable pub new_row : ℕ → Str → RememberInput → MemoryRow
new_row now w in' = record {
  kind = in'.kind;
  workspace_id = w;
  title = in'.title;
  content = in'.content;
  tags = in'.tags;
  source = in'.source;
  revision = 1;
  indexed_revision = 0;
  idempotency_key = idempotency in';
  deleted = false;
  created_at = now;
  updated_at = now;
}

-- INSERT INTO memories … RETURNING …: it fails on an ID or an idempotency key that is there.
unfoldable pub insert_memory : ℕ → Str → Str → RememberInput → Db → Result (Memory × Db)
insert_memory now id w in' db =
    let row = new_row now w in' in
    if is_some (lookup id db.memories) || key_taken w row.idempotency_key db
    then err unavailable
    else ok (scan_memory id row, record db { memories = (id, row) ∷ db.memories })

unfoldable pub insert_tx : ℕ → Str → Str → RememberInput → Tx Db Memory
insert_tx now id w in' = do
  m ← statement (insert_memory now id w in')
  outbox_tx now id EventKind.upsert 1
  pure (pending m)

-- A create under a generated ID.
unfoldable pub create_tx : ℕ → Option Str → Str → RememberInput → Tx Db Memory
create_tx now none w in' = raise unavailable
create_tx now (some id) w in' = limit_profile (is_profile in'.kind) w (insert_tx now id w in')

-- A create that was sent again: the memory, if it is as it was created.
unfoldable pub replay_tx : Str → RememberInput → Str × MemoryRow → Tx Db Memory
replay_tx w in' (id, row) = do
  found ← query (row_in w id true)
  elim found [
    | none ↦ raise unavailable
    | some m ↦ if m.deleted || not (same in' row) then raise conflict else pure (scan_memory id m)
  ]
