-- ===== src/Store/Schema.antt =====
-- The tables of internal/store/schema.sql that the store works on, less the columns search_vector
-- and last_error, and the row scans and tests that its statements share (internal/store/store.go).
-- Times are in microseconds.
use text.Mathlib.Text.{◌==◌ as text_eq}
use kasane_mcp.Prelude.{
  ℕ, Bool, ◌&&◌, ◌||◌, not, List, Option, none, some, String, ◌≡◌, Str, str_eq, ◌==◌, arith,
  if◌then◌else◌, Result, ok, err, unavailable,
}
use kasane_mcp.GoText.{Unicode}
use kasane_mcp.Table.{Table, lookup, count}
use kasane_mcp.Tx.{Tx, statement}
use kasane_mcp.Tx.Rules.{Reads, Sat-statement}
use kasane_mcp.Core.Types.{Memory}

-- What the store takes from outside: the Unicode tables of Go, and how PostgreSQL reads a text as a
-- UUID (`$1::uuid`), as the text in which it prints that UUID (`id::text`).
pub record Env : Type 0 where
  pub unicode : Unicode
  pub uuid : Str → Option Str

pub record WorkspaceRow : Type 0 where
  pub name : Str
  pub owner_username : Option Str
  pub created_at : ℕ

pub record MemoryRow : Type 0 where
  pub kind : String
  pub workspace_id : Str
  pub title : Str
  pub content : Str
  pub tags : List Str
  pub source : Str
  pub revision : ℕ
  pub indexed_revision : ℕ
  pub idempotency_key : Option Str
  pub deleted : Bool
  pub created_at : ℕ
  pub updated_at : ℕ

pub data EventKind : Type 0 where
  upsert delete : EventKind

pub record JobRow : Type 0 where
  pub event_kind : EventKind
  pub revision : ℕ
  pub attempts : ℕ
  pub next_attempt : ℕ
  pub created_at : ℕ

pub record Db : Type 0 where
  pub workspaces : Table WorkspaceRow
  pub memories : Table MemoryRow
  pub outbox : Table JobRow

-- kind IN ('stack','practice')
unfoldable pub is_profile : String → Bool
is_profile kind = text_eq kind "stack" || text_eq kind "practice"

-- workspace_id = w AND deleted = false AND kind IN ('stack','practice')
unfoldable pub in_profile : Str → MemoryRow → Bool
unfolding is_profile
in_profile w row = str_eq row.workspace_id w && not row.deleted && is_profile row.kind

-- SELECT count(*) FROM memories WHERE … kind IN ('stack','practice')
unfoldable pub profile_count : Str → Db → ℕ
profile_count w db = count (in_profile w) db.memories

-- scanMemory: the status is computed, and a score is set only behind a search.
unfoldable pub scan_memory : Str → MemoryRow → Memory
scan_memory id row = record {
  kind = row.kind;
  id = id;
  workspace_id = row.workspace_id;
  title = row.title;
  content = row.content;
  tags = row.tags;
  source = row.source;
  revision = row.revision;
  indexed_revision = row.indexed_revision;
  indexing_status = if row.indexed_revision == row.revision then "indexed" else "pending";
  created_at = row.created_at;
  updated_at = row.updated_at;
  deleted = row.deleted;
  score = 0;
}

-- The largest bigint: PostgreSQL refuses to count a revision beyond it.
abbrev pub max_bigint : ℕ
max_bigint = 9223372036854775807

-- workspace_id = w AND (deleted = false, unless deleted rows are wanted)
unfoldable pub visible : Str → Bool → MemoryRow → Bool
visible w include_deleted row = str_eq row.workspace_id w && (include_deleted || not row.deleted)

keep_if : {A : Type 0} → (A → Bool) → Option A → Option A
keep_if p none = none
keep_if p (some a) = if p a then some a else none

-- The row of a SELECT by workspace and ID, over the IDs as PostgreSQL prints them.
unfoldable pub row_in : Str → Str → Bool → Db → Option MemoryRow
unfolding keep_if visible
row_in w id include_deleted db = keep_if (visible w include_deleted) (lookup id db.memories)

-- A text in a `::uuid` position: one that PostgreSQL cannot read fails the statement.
cast : Option Str → Db → Result (Str × Db)
cast none db = err unavailable
cast (some id) db = ok (id, db)

-- A statement whose parameter is read as a UUID.
unfoldable pub cast_tx : Env → Str → Tx Db Str
unfolding cast
cast_tx env text = statement (cast (env.uuid text))

cast-ok :
    (o : Option Str) (db : Db) (id : Str) (db1 : Db)
    → cast o db ≡ ok (id, db1)
    → (db1 ≡ db) × (o ≡ some id)
unfolding cast
cast-ok none db id db1 h = cc
cast-ok (some id') db id db1 h = ground arith

-- The tables stay, and the text is read as the returned ID.
pub cast_tx-Sat :
    (env : Env) (text : Str) (db : Db) → Reads (cast_tx env text) db (λ id. env.uuid text ≡ some id)
unfolding cast_tx
cast_tx-Sat env text db = Sat-statement _ db (λ id db1 e. cast-ok (env.uuid text) db id db1 e)
