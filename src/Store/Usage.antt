-- ===== src/Store/Usage.antt =====
-- The usage counters: internal/store/usage.go over the table of internal/store/usage.sql, and
-- `recordContextUsage` of internal/server/usage.go. A day is counted from 1970-01-01 in UTC.
pub mod Balance
use kasane_mcp.Prelude.{
  ℕ, ◌+◌, ◌-◌, ◌/◌, Bool, true, false, ◌&&◌, ◌||◌, not, List, [], ◌∷◌, Option, none, some, Str,
  str_eq, ltb, leb, ◌==◌, ℤ, pos, ltb_ℤ, pos_part, if◌then◌else◌, Result, ok, err, invalid,
  unavailable,
}
use kasane_mcp.Tx.{Tx, Faults, raise, query, exec, run}
use kasane_mcp.Core.Types.{Memory, ContextResult}
use kasane_mcp.Core.Ids.{valid_uuid}
use kasane_mcp.Core.Pack.{full_context_characters}

pub record UsageTotals : Type 0 where
  pub retrievals : ℕ
  pub baseline_tokens : ℕ
  pub returned_tokens : ℕ
  pub saved_tokens : ℕ

pub record UsageRow : Type 0 where
  pub workspace_id : Str
  pub day : ℕ
  pub totals : UsageTotals

abbrev pub no_usage : UsageTotals
no_usage = record { retrievals = 0; baseline_tokens = 0; returned_tokens = 0; saved_tokens = 0 }

unfoldable pub plus : UsageTotals → UsageTotals → UsageTotals
plus a b = record {
  retrievals = a.retrievals + b.retrievals;
  baseline_tokens = a.baseline_tokens + b.baseline_tokens;
  returned_tokens = a.returned_tokens + b.returned_tokens;
  saved_tokens = a.saved_tokens + b.saved_tokens;
}

-- INSERT … ON CONFLICT(workspace_id,day) DO UPDATE
unfoldable pub add_usage : Str → ℕ → UsageTotals → List UsageRow → List UsageRow
unfolding plus
add_usage w day t [] = record { workspace_id = w; day = day; totals = t } ∷ []
add_usage w day t (row ∷ rows) =
    let rest = add_usage w day t rows in
    if str_eq row.workspace_id w && row.day == day
    then record row { totals = plus row.totals t } ∷ rows
    else row ∷ rest

-- (characters+3)/4
unfoldable pub tokens : ℕ → ℕ
tokens characters = (characters + 3) / 4

unfoldable pub retrieval : ℕ → ℕ → UsageTotals
unfolding tokens
retrieval full returned = record {
  retrievals = 1;
  baseline_tokens = tokens full;
  returned_tokens = tokens returned;
  saved_tokens = tokens full - tokens returned;
}

unfoldable pub count_tx : Option Str → ℕ → UsageTotals → Tx (List UsageRow) (Unit {0})
count_tx none day t = raise unavailable
count_tx (some w) day t = exec (add_usage w day t)

unfoldable pub bad_usage : Str → ℤ → ℤ → Bool
bad_usage ws full returned =
    not (valid_uuid ws) || ltb_ℤ full (pos 0) || ltb_ℤ returned (pos 0) || ltb_ℤ full returned

-- `Store.RecordContextUsage`; `uuid` is how PostgreSQL reads a text as a UUID.
unfoldable pub record_context_usage :
    (Str → Option Str)
    → ℕ
    → Str
    → ℤ
    → ℤ
    → List UsageRow
    → Faults
    → Result (Unit {0}) × List UsageRow
record_context_usage uuid day ws full returned db fs =
    if bad_usage ws full returned
    then (err invalid, db)
    else run (count_tx (uuid ws) day (retrieval (pos_part full) (pos_part returned))) db fs

-- `App.recordContextUsage`, which only logs the error that is returned here.
unfoldable pub count_context :
    (Str → Option Str)
    → ℕ
    → Str
    → List Memory
    → ContextResult
    → List UsageRow
    → Faults
    → Result (Unit {0}) × List UsageRow
count_context uuid day ws memories result =
    record_context_usage uuid day ws (pos (full_context_characters memories))
      (pos result.characters)

-- The sums over the rows of one day that are in scope.
unfoldable pub day_totals : (Str → Bool) → ℕ → List UsageRow → UsageTotals
unfolding plus
day_totals scope day [] = no_usage
day_totals scope day (row ∷ rows) =
    let rest = day_totals scope day rows in
    if scope row.workspace_id && row.day == day then plus row.totals rest else rest

-- The days of the report, from the given one on, with their totals.
unfoldable pub daily : (Str → Bool) → ℕ → ℕ → List UsageRow → List (ℕ × UsageTotals)
unfolding day_totals
daily scope first ℕ.zero rows = []
daily scope first (ℕ.suc n) rows =
    (first, day_totals scope first rows) ∷ daily scope (first + 1) n rows

unfoldable pub sum_totals : UsageTotals → List (ℕ × UsageTotals) → UsageTotals
unfolding plus
sum_totals t [] = t
sum_totals t (d ∷ ds) = sum_totals (plus t d.1) ds

pub record UsageReport : Type 0 where
  pub days : ℕ
  pub totals : UsageTotals
  pub daily_totals : List (ℕ × UsageTotals)

-- `usageWhere`: the last 30 days, today among them.
unfoldable pub usage_where : (Str → Bool) → ℕ → List UsageRow → UsageReport
unfolding daily sum_totals
usage_where scope today rows =
    let days = daily scope (today - 29) 30 rows in
    record { days = 30; totals = sum_totals no_usage days; daily_totals = days }
