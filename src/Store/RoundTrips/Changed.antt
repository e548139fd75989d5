-- ===== src/Store/RoundTrips/Changed.antt =====
-- `Store.Get` behind an update and a move that nothing speaks against (internal/store/store.go).
use text.Mathlib.Text.{◌==◌ as text_eq}
use kasane_mcp.Prelude.{
  [], ℕ, ◌+◌, ◌<◌, ◌≤◌, pos, ◌≡◌, ◌≢◌, refl, ap, true, false, ◌&&◌, Option, some, Str, ℤ, str_eq,
  str_eq_refl, str_eq_iff, arith, is_some, ok, err, not_found,
}
use kasane_mcp.Table.{lookup, modify}
use kasane_mcp.Core.Types.{RememberInput}
use kasane_mcp.Core.Ids.{valid_uuid}
use kasane_mcp.Core.Validation.{validate, is_empty}
use kasane_mcp.Store.Schema.{
  Env, Db, MemoryRow, EventKind, is_profile, profile_count, row_in, visible, max_bigint,
}
use kasane_mcp.Store.Outbox.{enqueue}
use kasane_mcp.Store.Remember.{remember}
use kasane_mcp.Store.Remember.Update.{updated_row, stale, revision_is}
use kasane_mcp.Store.Remember.Outcome.{IsLive, waiting, rewritten_row}
use kasane_mcp.Store.Move.{bad_move, moved_row, move}
use kasane_mcp.Store.Move.Outcome.{transferred_row}
use kasane_mcp.Store.Records.{get}
use kasane_mcp.Store.Replies.{remember-updates, move-moves, get-live, get-absent}
use kasane_mcp.Store.RoundTrips.{row_in-at, modified}
use kasane_mcp.Store.RoundTrips.Written.{waiting-scan}

-- The tables behind a write of one row.
abbrev rewritten : Db → ℕ → Str → (MemoryRow → MemoryRow) → MemoryRow → Db
rewritten db now id f row = record db {
  memories = modify id f db.memories;
  outbox = enqueue now id EventKind.upsert (row.revision + 1) db.outbox;
}

get-rewritten :
    (env : Env) (now : ℕ) (db : Db) (ws w memory_id id : Str) (f : MemoryRow → MemoryRow)
    (row : MemoryRow)
    → env.uuid ws ≡ some w
    → valid_uuid memory_id ≡ true
    → env.uuid memory_id ≡ some id
    → lookup id db.memories ≡ some row
    → (f row).workspace_id ≡ w
    → (f row).deleted ≡ false
    → (f row).indexed_revision ≢ (f row).revision
    → (get env ws memory_id (rewritten db now id f row) []).0 ≡ ok (waiting id (f row))
get-rewritten env now db ws w memory_id id f row ws_reads valid id_reads found home alive fresh =
    rw (waiting-scan id (f row) fresh) (
      ap (λ p. p.0)
        (get-live env now (rewritten db now id f row) ws w ws_reads memory_id id (f row) valid
          id_reads
          (row_in-at w id (rewritten db now id f row) (f row) (modified id f db.memories row found)
            (rw home (str_eq_refl w)) alive)))

row_in-any :
    (w id : Str) (db : Db) (row : MemoryRow) → IsLive w id db row → row_in w id true db ≡ some row
unfolding row_in visible
row_in-any w id db row l = rw l.found (rw l.home (rw (str_eq_refl w) refl))

row_in-live :
    (w id : Str) (db : Db) (row : MemoryRow) → IsLive w id db row → row_in w id false db ≡ some row
row_in-live w id db row l = row_in-at w id db row l.found (rw l.home (str_eq_refl w)) l.alive

expected-current :
    (expected : ℤ) (row : MemoryRow) → expected ≡ pos row.revision → revision_is expected row ≡ true
unfolding revision_is
expected-current expected row e = rw e (ground arith)

expected-not_stale :
    (in' : RememberInput) (row : MemoryRow)
    → in'.expected_revision ≡ pos row.revision
    → 1 ≤ row.revision
    → stale in' row ≡ false
unfolding stale
expected-not_stale in' row e revised =
    let is = expected-current in'.expected_revision row e in rw is (rw e (ground arith))

module _ (env : Env) (now : ℕ) (db : Db) (id : Str) (row : MemoryRow) (revised : 1 ≤ row.revision)
    (small : row.revision < max_bigint) where
  -- An update of a live memory, of the expected revision, is read back: the text of the input, under
  -- the next revision, waiting for the index. The input is valid, the revision below the largest
  -- bigint, no statement fails, and a memory that becomes part of the profile finds room there.
  pub get-updated :
      (ws w : Str) (fresh : Option Str) (raw in' : RememberInput)
      → env.uuid ws ≡ some w
      → validate env.unicode raw ≡ ok in'
      → is_empty in'.id ≡ false
      → valid_uuid in'.id ≡ true
      → env.uuid in'.id ≡ some id
      → is_some (lookup w db.workspaces) ≡ true
      → IsLive w id db row
      → in'.expected_revision ≡ pos row.revision
      → (text_eq row.kind "memory" && is_profile in'.kind ≡ true → profile_count w db < 100)
      → (get env ws in'.id (remember env now fresh ws raw db []).1 []).0
        ≡ ok (waiting id (rewritten_row now in' row))
  unfolding updated_row
  get-updated ws w fresh raw in' ws_reads valid with_id id_valid id_reads there l expected room =
      rw
        (remember-updates env now db ws w ws_reads fresh raw in' id row valid with_id id_valid
          id_reads there (row_in-live w id db row l) (row_in-any w id db row l)
          (expected-not_stale in' row expected revised) small room)
        (get-rewritten env now db ws w in'.id id (rewritten_row now in') row ws_reads id_valid
          id_reads l.found l.home l.alive (λ e. ground arith))

  -- A move of a live memory, of the expected revision, into another workspace is read back there:
  -- its text as it was, under the next revision, waiting for the index. In the source it is not
  -- found any more. Both workspaces are there, the revision is below the largest bigint, no
  -- statement fails, and a profile memory finds room in the target.
  pub get-moved :
      (source s target t memory_id : Str) (expected : ℤ)
      → bad_move source target memory_id expected ≡ false
      → valid_uuid memory_id ≡ true
      → env.uuid source ≡ some s
      → env.uuid target ≡ some t
      → s ≢ t
      → env.uuid memory_id ≡ some id
      → is_some (lookup s db.workspaces) ≡ true
      → is_some (lookup t db.workspaces) ≡ true
      → IsLive s id db row
      → expected ≡ pos row.revision
      → (is_profile row.kind ≡ true → profile_count t db < 100)
      → ((get env target memory_id (move env now source target memory_id expected db []).1 []).0
          ≡ ok (waiting id (transferred_row now t row)))
        × ((get env source memory_id (move env now source target memory_id expected db []).1 []).0
            ≡ err not_found)
  unfolding moved_row row_in visible
  get-moved source s target t memory_id expected good valid s_reads t_reads apart id_reads s_there
        t_there l current room =
      rw
        (move-moves env now db source s target t memory_id id expected row good s_reads t_reads
          id_reads s_there t_there (row_in-live s id db row l)
          (expected-current expected row current) small room)
        (
          get-rewritten env now db target t memory_id id (transferred_row now t) row t_reads valid
              id_reads l.found refl l.alive (λ e. ground arith),
          ap (λ p. p.0)
              (get-absent env now (rewritten db now id (transferred_row now t) row) source s s_reads
                memory_id id valid id_reads
                (let away : str_eq t s ≡ false = ground (arith, str_eq_iff t s, apart) in
                  rw (modified id (transferred_row now t) db.memories row l.found) (rw away refl))),
        )
