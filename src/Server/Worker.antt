-- ===== src/Server/Worker.antt =====
-- `App.RunWorker` of internal/server/app.go: the turns of its loop, one behind the other, as long as
-- the context is not cancelled. Durations and times are in microseconds.
pub mod Drains
pub mod Empties
use kasane_mcp.Prelude.{
  ℕ, ◌+◌, Bool, true, false, ◌||◌, not, List, [], ◌∷◌, Option, none, some, Str, ltb, if◌then◌else◌,
  Result, ok, err,
}
use kasane_mcp.Tx.{Faults}
use kasane_mcp.Core.Types.{Memory}
use kasane_mcp.Store.Schema.{Db}
use kasane_mcp.Store.Worker.{process_one}
use kasane_mcp.Feedback.Rows as Rows
use kasane_mcp.Feedback.{purge}

-- The variables of the loop; `none` is the zero time.
pub record Loop : Type 0 where
  pub ready : Bool
  pub last_check : Option ℕ
  pub last_purge : Option ℕ

-- What a turn meets: the clock at the two tests and behind them, the time of the transactions, the
-- time at which `ProcessOne` looks at the clock, and what the index and the database answer.
pub record Turn : Type 0 where
  pub purge_clock : ℕ
  pub purged_at : ℕ
  pub check_clock : ℕ
  pub checked_at : ℕ
  pub purge_now : ℕ
  pub now : ℕ
  pub clock : ℕ
  pub ensured : Bool
  pub locked : Str → Bool
  pub apply : Memory → Bool
  pub purge_faults : Faults
  pub faults : Faults

-- time.Since(last) > d
unfoldable pub elapsed : ℕ → Option ℕ → ℕ → Bool
elapsed clock none d = true
elapsed clock (some last) d = ltb (last + d) clock

unfoldable pub purge_turn : Turn → Loop → Rows.Db → Loop × Rows.Db
purge_turn t l rows =
    if elapsed t.purge_clock l.last_purge 60000000
    then (record l { last_purge = some t.purged_at }, (purge t.purge_now rows t.purge_faults).1)
    else (l, rows)

unfoldable pub check_turn : Turn → Loop → Loop
check_turn t l =
    if not l.ready || elapsed t.check_clock l.last_check 30000000
    then record l { ready = t.ensured; last_check = some t.checked_at }
    else l

-- The outcome of `ProcessOne`: whether it worked, and the loop behind it.
abbrev pub outcome : Loop → Result Bool → Bool × Loop
outcome l (ok worked) = (worked, l)
outcome l (err e) = (false, record l { ready = false })

abbrev pub delay : Bool × Loop → Option ℕ
delay (worked, l) = if worked then none else if l.ready then some 1000000 else some 5000000

unfoldable pub process_turn : Turn → Loop → Db → (Option ℕ × Loop) × Db
process_turn t l db =
    let processed = process_one t.now t.clock t.locked t.apply db t.faults in
    let behind = outcome l processed.0 in
    if l.ready then ((delay behind, behind.1), processed.1) else ((delay (false, l), l), db)

-- One turn: the wait behind it, if there is one, the loop, and the tables.
unfoldable pub turn : Turn → Loop → Db → Rows.Db → (Option ℕ × Loop) × (Db × Rows.Db)
turn t l db rows =
    let purged = purge_turn t l rows in
    let processed = process_turn t (check_turn t purged.0) db in
    (processed.0, (processed.1, purged.1))

-- The turns that the context allows.
unfoldable pub run_worker : List Turn → Loop → Db → Rows.Db → Loop × (Db × Rows.Db)
run_worker [] l db rows = (l, (db, rows))
run_worker (t ∷ turns) l db rows =
    run_worker turns (turn t l db rows).0.1 (turn t l db rows).1.0 (turn t l db rows).1.1

-- `ready := false`, and the two zero times.
abbrev pub started : Loop
started = record { ready = false; last_check = none; last_purge = none }
