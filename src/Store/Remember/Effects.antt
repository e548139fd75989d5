-- ===== src/Store/Remember/Effects.antt =====
-- What `Store.Remember` (internal/store/store.go) does to the tables: the rows that it writes and its
-- three outcomes.
use text.Mathlib.Text.{◌==◌ as text_eq}
use kasane_mcp.Prelude.{
  Option-cases, inl, inr, List, [], refl, ℕ, ◌+◌, ◌<◌, ◌≡◌, Bool, true, false, ◌&&◌, ◌∷◌, Option,
  none, some, Str, arith, ℤ, pos, str_eq_iff, if◌then◌else◌,
}
use kasane_mcp.Table.{lookup, modify, find_row}
use text.Mathlib.TextEquality.{eq_iff}
use kasane_mcp.Core.Types.{Memory, RememberInput}
use kasane_mcp.Core.Validation.{is_empty}
use kasane_mcp.Store.Schema.{
  Env, Db, MemoryRow, EventKind, is_profile, profile_count, scan_memory, row_in,
}
use kasane_mcp.Store.Outbox.{enqueue}
use kasane_mcp.Store.Remember.Create.{same, tags_eq, has_key, key_taken, idempotency}
use kasane_mcp.Store.Remember.Update.{revision_is}

abbrev pub UnderLimit : Bool → Str → Db → Type 0
UnderLimit b w db = b ≡ true → profile_count w db < 100

-- A live row of the workspace `w` under `id`.
pub record IsLive (w id : Str) (db : Db) (row : MemoryRow) : Type 0 where
  pub found : lookup id db.memories ≡ some row
  pub home : row.workspace_id ≡ w
  pub alive : row.deleted ≡ false

pub row_in-IsLive :
    (w id : Str) (db : Db) {row : MemoryRow} → row_in w id false db ≡ some row → IsLive w id db row
unfolding row_in
row_in-IsLive w id db {row} h = record {
  found = ground arith;
  home = ground (arith, str_eq_iff row.workspace_id w);
  alive = ground arith;
}

pub revision_is-pos :
    (expected : ℤ) (row : MemoryRow) → revision_is expected row ≡ true → expected ≡ pos row.revision
unfolding revision_is
revision_is-pos (pos n) row h = ground arith
revision_is-pos (ℤ.negsuc n) row h = cc

-- The row of a new memory.
abbrev pub created_row : ℕ → Str → RememberInput → MemoryRow
created_row now w in' = record {
  kind = in'.kind;
  workspace_id = w;
  title = in'.title;
  content = in'.content;
  tags = in'.tags;
  source = in'.source;
  revision = 1;
  indexed_revision = 0;
  idempotency_key = if is_empty in'.idempotency_key then none else some in'.idempotency_key;
  deleted = false;
  created_at = now;
  updated_at = now;
}

-- A row behind an update: what the input has, under the next revision.
abbrev pub rewritten_row : ℕ → RememberInput → MemoryRow → MemoryRow
rewritten_row now in' row = record {
  kind = in'.kind;
  workspace_id = row.workspace_id;
  title = in'.title;
  content = in'.content;
  tags = in'.tags;
  source = in'.source;
  revision = row.revision + 1;
  indexed_revision = 0;
  idempotency_key = row.idempotency_key;
  deleted = row.deleted;
  created_at = row.created_at;
  updated_at = now;
}

-- A row that waits for the index, as it is returned.
abbrev pub waiting : Str → MemoryRow → Memory
waiting id row = record {
  kind = row.kind;
  id = id;
  workspace_id = row.workspace_id;
  title = row.title;
  content = row.content;
  tags = row.tags;
  source = row.source;
  revision = row.revision;
  indexed_revision = row.indexed_revision;
  indexing_status = "pending";
  created_at = row.created_at;
  updated_at = row.updated_at;
  deleted = row.deleted;
  score = 0;
}

-- A row of the workspace that was created under the key of the input, with what the input has.
pub record IsReplay (w : Str) (in' : RememberInput) (row : MemoryRow) : Type 0 where
  pub home : row.workspace_id ≡ w
  pub key : row.idempotency_key ≡ some in'.idempotency_key
  pub title : row.title ≡ in'.title
  pub content : row.content ≡ in'.content
  pub tags : row.tags ≡ in'.tags
  pub source : row.source ≡ in'.source
  pub kind : row.kind ≡ in'.kind

tags_eq-eq : (s t : List Str) → tags_eq s t ≡ true → s ≡ t
unfolding tags_eq
tags_eq-eq [] [] h = refl
tags_eq-eq [] (d ∷ t) h = cc
tags_eq-eq (c ∷ s) [] h = cc
tags_eq-eq (c ∷ s) (d ∷ t) h =
    let first : c ≡ d = (str_eq_iff c d).0 (ground arith) in
    let rest : s ≡ t = tags_eq-eq s t (ground arith) in cc (first, rest)

has_key-eq :
    (w key : Str) (row : MemoryRow)
    → has_key w key row ≡ true
    → (row.workspace_id ≡ w) × (row.idempotency_key ≡ some key)
unfolding has_key
has_key-eq w key row h = elim (Option-cases row.idempotency_key) [
  | inl e ↦ absurd (ground arith)
  | inr (k, e) ↦
      let same : k ≡ key = (str_eq_iff k key).0 (ground arith) in
      ((str_eq_iff row.workspace_id w).0 (ground arith), cc (e, same))
]

pub same-IsReplay :
    (w : Str) (in' : RememberInput) (row : MemoryRow)
    → has_key w in'.idempotency_key row ≡ true
    → same in' row ≡ true
    → IsReplay w in' row
unfolding same
same-IsReplay w in' row held h =
    let (home, key) = has_key-eq w in'.idempotency_key row held in
    record {
      home = home;
      key = key;
      title = (str_eq_iff row.title in'.title).0 (ground arith);
      content = (str_eq_iff row.content in'.content).0 (ground arith);
      tags = tags_eq-eq row.tags in'.tags (ground arith);
      source = (str_eq_iff row.source in'.source).0 (ground arith);
      kind = (eq_iff row.kind in'.kind).0 (ground arith);
    }

-- The three outcomes in the workspace `w`.
pub data Remembered (env : Env) (now : ℕ) (fresh : Option Str) (w : Str) (in' : RememberInput)
    (db : Db) (m : Memory) (db' : Db) : Type 0 where
  replayed :
      (id : Str) (found row : MemoryRow)
      → find_row (has_key w in'.idempotency_key) db.memories ≡ some (id, found)
      → IsReplay w in' found
      → row_in w id true db ≡ some row
      → row.deleted ≡ false
      → m ≡ scan_memory id row
      → db' ≡ db
      → Remembered env now fresh w in' db m db'
  created :
      (id : Str)
      → is_empty in'.id ≡ true
      → fresh ≡ some id
      → lookup id db.memories ≡ none
      → key_taken w (idempotency in') db ≡ false
      → UnderLimit (is_profile in'.kind) w db
      → m ≡ waiting id (created_row now w in')
      → db' ≡ record db {
        memories = (id, created_row now w in') ∷ db.memories;
        outbox = enqueue now id EventKind.upsert 1 db.outbox;
      }
      → Remembered env now fresh w in' db m db'
  updated :
      (id : Str) (row : MemoryRow)
      → env.uuid in'.id ≡ some id
      → IsLive w id db row
      → in'.expected_revision ≡ pos row.revision
      → UnderLimit (text_eq row.kind "memory" && is_profile in'.kind) w db
      → m ≡ waiting id (rewritten_row now in' row)
      → db' ≡ record db {
        memories = modify id (rewritten_row now in') db.memories;
        outbox = enqueue now id EventKind.upsert (row.revision + 1) db.outbox;
      }
      → Remembered env now fresh w in' db m db'
