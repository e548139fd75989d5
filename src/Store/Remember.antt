-- ===== src/Store/Remember.antt =====
-- `Store.Remember` of internal/store/store.go: a create, the replay of a create, and an update.
pub mod Steps
pub mod Create
pub mod Update
pub mod Effects
pub mod Outcome
pub mod Keeps
use text.Mathlib.Text.{◌==◌ as text_eq}
use kasane_mcp.Prelude.{
  ℕ, ◌+◌, Bool, true, false, ◌&&◌, ◌||◌, not, List, [], ◌∷◌, Option, none, some, Str, str_eq, ◌==◌,
  leb, ltb_ℤ, is_some, ℤ, pos, if◌then◌else◌, Result, ok, err, Error, invalid, conflict, not_found,
  unavailable,
}
use kasane_mcp.Table.{Table, lookup, modify, find_row}
use kasane_mcp.Tx.{Tx, Faults, pure, raise, statement, query, ◌>>=◌, ◌>>◌, transact}
use kasane_mcp.Core.Types.{Memory, RememberInput}
use kasane_mcp.Core.Ids.{valid_uuid}
use kasane_mcp.Core.Validation.{validate, is_empty}
use kasane_mcp.Store.Schema.{
  Env, Db, MemoryRow, EventKind, is_profile, profile_count, scan_memory, row_in, max_bigint,
  cast_tx,
}
use kasane_mcp.Store.Outbox.{outbox_tx}
use Create.{has_key, create_tx, replay_tx}
use Update.{update_tx}

-- SELECT EXISTS(SELECT 1 FROM workspaces WHERE id=$1::uuid), then the lock of that row: the ID as
-- it is printed, if there is such a workspace.
unfoldable pub workspace_tx : Env → Str → Tx Db Str
workspace_tx env ws = do
  w ← cast_tx env ws
  found ← query (λ (db : Db). is_some (lookup w db.workspaces))
  if found then (do query (λ (db : Db). lookup w db.workspaces); pure w) else raise not_found

-- A create under an idempotency key looks first for the memory that it created before.
unfoldable pub keyed_tx : ℕ → Option Str → Str → RememberInput → Tx Db Memory
keyed_tx now fresh w in' = do
  held ← query (λ (db : Db). find_row (has_key w in'.idempotency_key) db.memories)
  elim held [ none ↦ create_tx now fresh w in' | some found ↦ replay_tx w in' found ]

unfoldable pub remember_tx : Env → ℕ → Option Str → Str → RememberInput → Tx Db Memory
remember_tx env now fresh ws in' = do
  w ← workspace_tx env ws
  if is_empty in'.id && not (is_empty in'.idempotency_key)
      then keyed_tx now fresh w in'
      else if is_empty in'.id
      then create_tx now fresh w in'
      else update_tx env now w in'

-- Behind the validation.
unfoldable pub remember_valid :
    Env → ℕ → Option Str → Str → RememberInput → Db → Faults → Result Memory × Db
remember_valid env now fresh ws in' db fs =
    if not (is_empty in'.id) && not (valid_uuid in'.id)
    then (err invalid, db)
    else transact (remember_tx env now fresh ws in') db fs

remember_with : Env → ℕ → Option Str → Str → Db → Faults → Result RememberInput → Result Memory × Db
remember_with env now fresh ws db fs (err e) = (err e, db)
remember_with env now fresh ws db fs (ok in') = remember_valid env now fresh ws in' db fs

-- The whole method: what it returns, and the tables behind it. `fresh` is the ID that `uuid()`
-- generates, if it generates one.
unfoldable pub remember :
    Env → ℕ → Option Str → Str → RememberInput → Db → Faults → Result Memory × Db
unfolding remember_with
remember env now fresh ws raw db fs =
    remember_with env now fresh ws db fs (validate env.unicode raw)
