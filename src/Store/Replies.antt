-- ===== src/Store/Replies.antt =====
-- What the operations of internal/store/store.go return when every statement is carried out.
use text.Mathlib.Text.{◌==◌ as text_eq}
use kasane_mcp.Prelude.{
  ℕ, ◌+◌, ◌<◌, ◌≡◌, refl, Bool, true, false, ◌&&◌, [], ◌∷◌, Option, none, some, Str, leb, arith,
  Bool-cases, inl, inr, ℤ, is_some, ok, err, conflict, not_found,
}
use kasane_mcp.Table.{lookup, modify}
use kasane_mcp.Tx.{Tx, transact, run, ◌>>=◌}
use kasane_mcp.Core.Types.{RememberInput}
use kasane_mcp.Core.Ids.{valid_uuid}
use kasane_mcp.Core.Validation.{validate, is_empty}
use kasane_mcp.Store.Schema.{
  Env, Db, MemoryRow, EventKind, is_profile, profile_count, scan_memory, row_in, cast_tx,
  max_bigint,
}
use kasane_mcp.Store.Outbox.{outbox_tx, enqueue}
use kasane_mcp.Store.Remember.{remember, remember_valid, remember_tx, workspace_tx}
use kasane_mcp.Store.Remember.Steps.{pending, limit_profile, rewrite_row}
use kasane_mcp.Store.Remember.Create.{
  new_row, key_taken, idempotency, insert_memory, insert_tx, create_tx,
}
use kasane_mcp.Store.Remember.Update.{
  updated_row, update_tx, rewrite_tx, update_memory, stale, revision_is,
}
use kasane_mcp.Store.Move.{
  str_ltb, lock_tx, lock_both_tx, moved_row, move_memory, transfer_tx, move_tx, bad_move, move,
}
use kasane_mcp.Store.Records.{find_tx, get_tx, get, forgotten_row, forget_memory, forget_tx, forget}

limit_first : (row : MemoryRow) → row.revision < max_bigint → leb max_bigint row.revision ≡ false
limit_first row h = ground arith

module _ (env : Env) (now : ℕ) (db : Db) (ws w : Str) (ws_reads : env.uuid ws ≡ some w) where
  -- A live memory that is forgotten, its revision being below the largest bigint: the call returns
  -- no error, the text is gone, and the removal is queued under the next revision.
  pub forget-redacts :
      (memory_id id : Str) (row : MemoryRow)
      → valid_uuid memory_id ≡ true
      → env.uuid memory_id ≡ some id
      → row_in w id false db ≡ some row
      → row.revision < max_bigint
      → forget env now ws memory_id db [] ≡ (
        ok tt,
        record db {
          memories = modify id (forgotten_row now) db.memories;
          outbox = enqueue now id EventKind.delete (row.revision + 1) db.outbox;
        },
      )
  unfolding forget forget_tx cast_tx forget_memory rewrite_row outbox_tx transact ◌>>=◌
      forgotten_row
  forget-redacts memory_id id row valid id_reads found small =
      rw (valid, ws_reads, id_reads, found, limit_first row small) refl

  -- A memory that is not live in the workspace is forgotten without an error and without a change.
  pub forget-absent :
      (memory_id id : Str)
      → valid_uuid memory_id ≡ true
      → env.uuid memory_id ≡ some id
      → row_in w id false db ≡ none
      → forget env now ws memory_id db [] ≡ (ok tt, db)
  unfolding forget forget_tx cast_tx forget_memory rewrite_row transact ◌>>=◌
  forget-absent memory_id id valid id_reads found = rw (valid, ws_reads, id_reads, found) refl

  -- `get` returns a live memory of the workspace as it stands in its row.
  pub get-live :
      (memory_id id : Str) (row : MemoryRow)
      → valid_uuid memory_id ≡ true
      → env.uuid memory_id ≡ some id
      → row_in w id false db ≡ some row
      → get env ws memory_id db [] ≡ (ok (scan_memory id row), db)
  unfolding get get_tx find_tx cast_tx run ◌>>=◌
  get-live memory_id id row valid id_reads found = rw (valid, ws_reads, id_reads, found) refl

  pub get-absent :
      (memory_id id : Str)
      → valid_uuid memory_id ≡ true
      → env.uuid memory_id ≡ some id
      → row_in w id false db ≡ none
      → get env ws memory_id db [] ≡ (err not_found, db)
  unfolding get get_tx find_tx cast_tx run ◌>>=◌
  get-absent memory_id id valid id_reads found = rw (valid, ws_reads, id_reads, found) refl

  limit_open :
      {A : Type 0} (b : Bool) (rest : Tx Db A)
      → (b ≡ true → profile_count w db < 100)
      → limit_profile b w rest db [] ≡ rest db []
  unfolding limit_profile ◌>>=◌
  limit_open false rest h = refl
  limit_open true rest h = let lt = h refl in rw (room (profile_count w db) lt) refl
    where
      room : (n : ℕ) → n < 100 → leb 100 n ≡ false
      room n h = ground arith

  -- A valid input without an ID and without an idempotency key is stored: in a workspace that is
  -- there, under a generated ID that is free, and, if it belongs to the profile, while the workspace
  -- has fewer than 100 profile memories. The new row and its job are put in, and it is returned.
  pub remember-creates :
      (fresh : Str) (raw in' : RememberInput)
      → validate env.unicode raw ≡ ok in'
      → is_empty in'.id ≡ true
      → is_empty in'.idempotency_key ≡ true
      → is_some (lookup w db.workspaces) ≡ true
      → is_some (lookup fresh db.memories) ≡ false
      → (is_profile in'.kind ≡ true → profile_count w db < 100)
      → remember env now (some fresh) ws raw db [] ≡ (
        ok (pending (scan_memory fresh (new_row now w in'))),
        record db {
          memories = (fresh, new_row now w in') ∷ db.memories;
          outbox = enqueue now fresh EventKind.upsert 1 db.outbox;
        },
      )
  unfolding remember remember_valid remember_tx workspace_tx cast_tx transact ◌>>=◌ create_tx
  remember-creates fresh raw in' valid no_id no_key there free room =
      rw
        (
          valid,
          no_id,
          no_key,
          ws_reads,
          there,
          limit_open (is_profile in'.kind) (insert_tx now fresh w in') room,
        )
        (unfold insert_tx insert_memory outbox_tx idempotency key_taken new_row in
          rw (no_key, free) refl)

  -- An update whose expected revision is not the one of the live memory is a conflict, and changes
  -- nothing.
  pub remember-stale :
      (fresh : Option Str) (raw in' : RememberInput) (id : Str) (row : MemoryRow)
      → validate env.unicode raw ≡ ok in'
      → is_empty in'.id ≡ false
      → valid_uuid in'.id ≡ true
      → env.uuid in'.id ≡ some id
      → is_some (lookup w db.workspaces) ≡ true
      → row_in w id false db ≡ some row
      → revision_is in'.expected_revision row ≡ false
      → remember env now fresh ws raw db [] ≡ (err conflict, db)
  unfolding remember remember_valid remember_tx workspace_tx cast_tx transact ◌>>=◌ update_tx stale
  remember-stale fresh raw in' id row valid with_id id_valid id_reads there found other =
      rw (valid, with_id, id_valid, ws_reads, there, id_reads, found, other) (ground arith)

  -- A memory that is live in the workspace is updated if its revision is the expected one and below
  -- the largest bigint, and, when a memory becomes part of the profile, while the workspace has fewer
  -- than 100 profile memories. The row is rewritten under the next revision, its job is queued, and
  -- it is returned.
  pub remember-updates :
      (fresh : Option Str) (raw in' : RememberInput) (id : Str) (row : MemoryRow)
      → validate env.unicode raw ≡ ok in'
      → is_empty in'.id ≡ false
      → valid_uuid in'.id ≡ true
      → env.uuid in'.id ≡ some id
      → is_some (lookup w db.workspaces) ≡ true
      → row_in w id false db ≡ some row
      → row_in w id true db ≡ some row
      → stale in' row ≡ false
      → row.revision < max_bigint
      → (text_eq row.kind "memory" && is_profile in'.kind ≡ true → profile_count w db < 100)
      → remember env now fresh ws raw db [] ≡ (
        ok (pending (scan_memory id (updated_row now in' row))),
        record db {
          memories = modify id (updated_row now in') db.memories;
          outbox = enqueue now id EventKind.upsert (row.revision + 1) db.outbox;
        },
      )
  unfolding remember remember_valid remember_tx workspace_tx cast_tx transact ◌>>=◌ update_tx
  remember-updates fresh raw in' id row valid with_id id_valid id_reads there found found_any same
        small room =
      let is : revision_is in'.expected_revision row ≡ true = unfold stale in ground arith in
      rw
        (
          valid,
          with_id,
          id_valid,
          ws_reads,
          there,
          id_reads,
          found,
          same,
          limit_open (text_eq row.kind "memory" && is_profile in'.kind) (rewrite_tx now id w in')
              room,
        )
        (unfold rewrite_tx update_memory rewrite_row outbox_tx updated_row in
          rw (found_any, is, limit_first row small) refl)

lock_both_ok :
    (env : Env) (db : Db) (source s target t : Str)
    → env.uuid source ≡ some s
    → env.uuid target ≡ some t
    → is_some (lookup s db.workspaces) ≡ true
    → is_some (lookup t db.workspaces) ≡ true
    → lock_both_tx env source target db [] ≡ ok (record { value = (s, t); state = db; left = [] })
unfolding lock_both_tx lock_tx cast_tx ◌>>=◌
lock_both_ok env db source s target t s_reads t_reads s_there t_there =
    elim (Bool-cases (str_ltb target source)) [
      | inl e ↦ rw (e, t_reads, t_there, s_reads, s_there) refl
      | inr e ↦ rw (e, s_reads, s_there, t_reads, t_there) refl
    ]

-- A live memory of the source, of the expected revision, which is below the largest bigint, is
-- moved to another workspace, if a profile memory finds fewer than 100 there. The row is rewritten
-- under the next revision, its job is queued, and it is returned.
pub move-moves :
    (env : Env) (now : ℕ) (db : Db) (source s target t memory_id id : Str) (expected : ℤ)
    (row : MemoryRow)
    → bad_move source target memory_id expected ≡ false
    → env.uuid source ≡ some s
    → env.uuid target ≡ some t
    → env.uuid memory_id ≡ some id
    → is_some (lookup s db.workspaces) ≡ true
    → is_some (lookup t db.workspaces) ≡ true
    → row_in s id false db ≡ some row
    → revision_is expected row ≡ true
    → row.revision < max_bigint
    → (is_profile row.kind ≡ true → profile_count t db < 100)
    → move env now source target memory_id expected db [] ≡ (
      ok (pending (scan_memory id (moved_row now t row))),
      record db {
        memories = modify id (moved_row now t) db.memories;
        outbox = enqueue now id EventKind.upsert (row.revision + 1) db.outbox;
      },
    )
unfolding move move_tx transact ◌>>=◌ cast_tx
move-moves env now db source s target t memory_id id expected row good s_reads t_reads id_reads
      s_there t_there found is small room =
    rw
      (
        good,
        lock_both_ok env db source s target t s_reads t_reads s_there t_there,
        id_reads,
        found,
        limit_open env now db target t t_reads (is_profile row.kind)
            (transfer_tx now s t id expected) room,
      )
      (unfold transfer_tx move_memory rewrite_row outbox_tx moved_row in
        rw (found, is, limit_first row small) refl)
