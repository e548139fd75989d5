-- ===== src/Store/Remember/Keeps.antt =====
-- The outcomes of `Store.Remember` (internal/store/store.go) and the consistency of the tables.
use text.Mathlib.Text.{◌==◌ as text_eq}
use kasane_mcp.Prelude.{
  ℕ, ◌<◌, ◌+◌, ◌≡◌, refl, sym, subst, ◌⊎◌, inl, inr, Bool, true, false, ◌&&◌, Option, some, Str,
  Result, Bool-cases, str_eq_iff, arith,
}
use kasane_mcp.Tx.{Faults}
use kasane_mcp.Core.Types.{Memory, RememberInput}
use kasane_mcp.Core.Validation.{known_kind}
use kasane_mcp.Core.Validation.Accepted.{validate-known}
use kasane_mcp.Store.Schema.{
  Env, Db, MemoryRow, EventKind, is_profile, in_profile, row_in, profile_count,
}
use kasane_mcp.Table.{lookup}
use kasane_mcp.Store.Consistent.{
  IsConsistent, live-WellFormed, row-WellFormed, write-IsConsistent, insert-IsConsistent,
}
use kasane_mcp.Store.Remember.Outcome.{
  Remembered, Outcome, UnderLimit, created_row, rewritten_row, remember-Outcome,
}
use kasane_mcp.Store.Remember.{remember}

-- A row that a SELECT by workspace and ID returns.
pub row_in-some :
    (w id : Str) (include_deleted : Bool) (db : Db) {row : MemoryRow}
    → row_in w id include_deleted db ≡ some row
    → (lookup id db.memories ≡ some row)
      × (row.workspace_id ≡ w)
      × ((include_deleted ≡ true) ⊎ (row.deleted ≡ false))
unfolding row_in
row_in-some w id include_deleted db {row} h = ground (arith, str_eq_iff row.workspace_id w)

pub in_profile_moved :
    (v w : Str) (row : MemoryRow) (db : Db) (b : Bool)
    → row.workspace_id ≡ w
    → UnderLimit b w db
    → b ≡ true
    → in_profile v row ≡ true
    → profile_count v db < 100
unfolding in_profile
in_profile_moved v w row db b home limit e inside =
    let same : v ≡ w = ground (arith, str_eq_iff row.workspace_id v) in
    subst (λ (x : Str). profile_count x db < 100) (sym same) (limit e)

-- An update enters the profile only below its limit.
update_limit :
    (v w : Str) (row new : MemoryRow) (db : Db)
    → row.workspace_id ≡ w
    → new.workspace_id ≡ w
    → row.deleted ≡ false
    → known_kind row.kind ≡ true
    → UnderLimit (text_eq row.kind "memory" && is_profile new.kind) w db
    → in_profile v new ≡ true
    → (in_profile v row ≡ true) ⊎ (profile_count v db < 100)
update_limit v w row new db home stays live known limit inside =
    elim (Bool-cases (text_eq row.kind "memory")) [
      | inl e ↦
          inr (in_profile_moved v w new db _ stays limit (unfold in_profile in ground arith) inside)
      | inr e ↦ inl (unfold in_profile in ground arith)
    ]

Remembered-IsConsistent :
    {env : Env} {now : ℕ} {fresh : Option Str} {w : Str} {in' : RememberInput} {db db' : Db}
    {m : Memory}
    → known_kind in'.kind ≡ true
    → IsConsistent db
    → Remembered env now fresh w in' db m db'
    → IsConsistent db'
Remembered-IsConsistent known c (Remembered.replayed id found row held like there live m_eq db_eq) =
    subst IsConsistent (sym db_eq) c
Remembered-IsConsistent {now = now} {w = w} {in' = in'} {db = db} known c
      (Remembered.created id new drawn absent free limit m_eq db_eq) =
    subst IsConsistent (sym db_eq) (
      insert-IsConsistent c now id (created_row now w in') absent (omega arith)
        (live-WellFormed _ known refl)
        (λ v inside.
          in_profile_moved v w (created_row now w in') db _ refl limit
            (unfold in_profile in ground arith) inside))
Remembered-IsConsistent {now = now} {w = w} {in' = in'} {db = db} known c
      (Remembered.updated id row reads l current limit m_eq db_eq) =
    let (revised, formed) = row-WellFormed c id l.found in
    subst IsConsistent (sym db_eq) (
      write-IsConsistent c now id EventKind.upsert (row.revision + 1) (rewritten_row now in') row
        l.found (omega arith) (live-WellFormed _ known l.alive) (omega arith) (λ e. absurd (cc e))
        (λ v inside.
          update_limit v w row (rewritten_row now in' row) db l.home l.home l.alive
            formed.kind_known limit inside))

Outcome-IsConsistent :
    {env : Env} {now : ℕ} {fresh : Option Str} {ws : Str} {raw : RememberInput} {db db' : Db}
    {r : Result Memory}
    → IsConsistent db
    → Outcome env now fresh ws raw db r db'
    → IsConsistent db'
Outcome-IsConsistent c (Outcome.refused e) = c
Outcome-IsConsistent {env} {raw = raw} c (Outcome.done w in' valid named r) =
    Remembered-IsConsistent (validate-known env.unicode raw valid) c r

pub remember-IsConsistent :
    (env : Env) (now : ℕ) (fresh : Option Str) (ws : Str) (raw : RememberInput) (db : Db)
    (fs : Faults)
    → IsConsistent db
    → IsConsistent (remember env now fresh ws raw db fs).1
remember-IsConsistent env now fresh ws raw db fs c =
    Outcome-IsConsistent c (remember-Outcome env now fresh ws raw db fs)
