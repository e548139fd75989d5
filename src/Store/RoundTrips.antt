-- ===== src/Store/RoundTrips.antt =====
-- What `Store.Get` returns behind the writes of internal/store/store.go.
pub mod Written
pub mod Changed
use kasane_mcp.Prelude.{
  ℕ, ◌+◌, ◌<◌, ◌≡◌, refl, ap, true, false, [], ◌∷◌, none, some, Str, str_eq, str_eq_refl, arith,
  is_some, ok, err, not_found,
}
use kasane_mcp.Table.{Table, lookup, modify}
use kasane_mcp.Table.Laws.{lookup-modify_at}
use kasane_mcp.Core.Types.{RememberInput}
use kasane_mcp.Core.Ids.{valid_uuid}
use kasane_mcp.Core.Validation.{validate, is_empty}
use kasane_mcp.Store.Schema.{
  Env, Db, MemoryRow, EventKind, is_profile, profile_count, scan_memory, row_in, visible,
  max_bigint,
}
use kasane_mcp.Store.Outbox.{enqueue}
use kasane_mcp.Store.Remember.{remember}
use kasane_mcp.Store.Remember.Create.{new_row, idempotency}
use kasane_mcp.Store.Remember.Outcome.{waiting, created_row}
use kasane_mcp.Store.Remember.Keeps.{row_in-some}
use kasane_mcp.Store.Records.{get, forgotten_row, forget}
use kasane_mcp.Store.Replies.{remember-creates, forget-redacts, get-live, get-absent}

pub row_in-at :
    (w id : Str) (db : Db) (row : MemoryRow)
    → lookup id db.memories ≡ some row
    → str_eq row.workspace_id w ≡ true
    → row.deleted ≡ false
    → row_in w id false db ≡ some row
unfolding row_in visible
row_in-at w id db row found home live = rw found (ground arith)

pub row_in-gone :
    (w id : Str) (db : Db) (row : MemoryRow)
    → lookup id db.memories ≡ some row
    → row.deleted ≡ true
    → row_in w id false db ≡ none
unfolding row_in visible
row_in-gone w id db row found gone = rw found (ground arith)

pub modified :
    (id : Str) (f : MemoryRow → MemoryRow) (t : Table MemoryRow) (row : MemoryRow)
    → lookup id t ≡ some row
    → lookup id (modify id f t) ≡ some (f row)
modified id f t row h = rw (lookup-modify_at id id f t row h, str_eq_refl id) refl

abbrev created : Db → ℕ → Str → MemoryRow → Db
created db now fresh row = record db {
  memories = (fresh, row) ∷ db.memories;
  outbox = enqueue now fresh EventKind.upsert 1 db.outbox;
}

abbrev redacted : Db → ℕ → Str → MemoryRow → Db
redacted db now id row = record db {
  memories = modify id (forgotten_row now) db.memories;
  outbox = enqueue now id EventKind.delete (row.revision + 1) db.outbox;
}

module _ (env : Env) (now : ℕ) (db : Db) (ws w : Str) (ws_reads : env.uuid ws ≡ some w) where
  -- What was just created is read back: the text of the input, at revision 1, waiting for the index. It is created with no ID and
  -- no idempotency key, from a valid input, in a workspace that is there and has room in its profile,
  -- under a free ID that reads as itself, and no statement fails.
  pub get-created :
      (fresh : Str) (raw in' : RememberInput)
      → validate env.unicode raw ≡ ok in'
      → is_empty in'.id ≡ true
      → is_empty in'.idempotency_key ≡ true
      → is_some (lookup w db.workspaces) ≡ true
      → is_some (lookup fresh db.memories) ≡ false
      → (is_profile in'.kind ≡ true → profile_count w db < 100)
      → valid_uuid fresh ≡ true
      → env.uuid fresh ≡ some fresh
      → (get env ws fresh (remember env now (some fresh) ws raw db []).1 []).0
        ≡ ok (waiting fresh (created_row now w in'))
  unfolding new_row idempotency scan_memory
  get-created fresh raw in' valid no_id no_key there free room id_valid id_reads =
      rw
        (remember-creates env now db ws w ws_reads fresh raw in' valid no_id no_key there free room)
        (ap (λ p. p.0)
          (get-live env now (created db now fresh (new_row now w in')) ws w ws_reads fresh fresh
            (new_row now w in') id_valid id_reads
            (row_in-at w fresh (created db now fresh (new_row now w in')) (new_row now w in')
              (unfold lookup in rw (str_eq_refl fresh) refl) (str_eq_refl w) refl)))

  -- A live memory that was just forgotten, its revision being below the largest bigint, is not found
  -- any more, if no statement fails.
  pub get-forgotten :
      (memory_id id : Str) (row : MemoryRow)
      → valid_uuid memory_id ≡ true
      → env.uuid memory_id ≡ some id
      → row_in w id false db ≡ some row
      → row.revision < max_bigint
      → (get env ws memory_id (forget env now ws memory_id db []).1 []).0 ≡ err not_found
  get-forgotten memory_id id row valid id_reads found small =
      rw (forget-redacts env now db ws w ws_reads memory_id id row valid id_reads found small) (
        ap (λ p. p.0)
          (get-absent env now (redacted db now id row) ws w ws_reads memory_id id valid id_reads (
            row_in-gone w id (redacted db now id row) (forgotten_row now row)
              (modified id (forgotten_row now) db.memories row (row_in-some w id false db found).0)
              (unfold forgotten_row in refl))))
