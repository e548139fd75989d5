-- ===== src/Store/Usage/Balance.antt =====
-- Sums over the usage counters (internal/store/usage.go), and the counting of a packed context.
use kasane_mcp.Prelude.{
  ℕ, ◌+◌, ◌-◌, ◌≤◌, ◌≡◌, refl, zero, suc, Bool, true, false, ◌&&◌, ◌==◌, str_eq, Bool-cases, inl,
  inr, List, [], ◌∷◌, Option, none, some, Str, ℤ, pos, pos_part, arith, if-rule, Result, ok,
  unavailable,
}
use kasane_mcp.Tx.{Faults, run, exec}
use kasane_mcp.Tx.Rules.{Sat, Sat-raise, Sat-exec_last, run-rule}
use kasane_mcp.Core.Types.{Memory}
use kasane_mcp.Core.Ids.{valid_uuid}
use kasane_mcp.Core.Pack.{pack_context, full_context_characters}
use kasane_mcp.Core.Pack.Budget.{pack_context_budget}
use kasane_mcp.Store.Usage.{
  UsageTotals, UsageRow, no_usage, plus, add_usage, tokens, retrieval, count_tx, bad_usage,
  record_context_usage, count_context, day_totals, daily, sum_totals, usage_where,
}

abbrev pub Balanced : UsageTotals → Type 0
Balanced t = t.returned_tokens + t.saved_tokens ≡ t.baseline_tokens

abbrev pub AllBalanced : List UsageRow → Type 0
AllBalanced [] = Unit
AllBalanced (row ∷ rows) = Balanced row.totals × AllBalanced rows

plus-Balanced : (a b : UsageTotals) → Balanced a → Balanced b → Balanced (plus a b)
unfolding plus
plus-Balanced a b ha hb = omega arith

add_usage-AllBalanced :
    (w : Str) (day : ℕ) (t : UsageTotals) (rows : List UsageRow)
    → Balanced t
    → AllBalanced rows
    → AllBalanced (add_usage w day t rows)
unfolding add_usage
add_usage-AllBalanced w day t [] ht h = (ht, tt)
add_usage-AllBalanced w day t (row ∷ rows) ht h =
    elim (Bool-cases (str_eq row.workspace_id w && row.day == day)) [
      | inl here ↦ rw here (plus-Balanced row.totals t h.0 ht, h.1)
      | inr there ↦ rw there (h.0, add_usage-AllBalanced w day t rows ht h.1)
    ]

retrieval-Balanced : (full returned : ℕ) → returned ≤ full → Balanced (retrieval full returned)
unfolding retrieval tokens
retrieval-Balanced full returned le = omega arith

count_tx-Sat :
    (o : Option Str) (day : ℕ) (t : UsageTotals) (rows : List UsageRow)
    → Balanced t
    → AllBalanced rows
    → Sat (count_tx o day t) rows (λ _ rows'. AllBalanced rows')
unfolding count_tx
count_tx-Sat none day t rows ht h = Sat-raise unavailable rows
count_tx-Sat (some w) day t rows ht h =
    Sat-exec_last _ rows (add_usage-AllBalanced w day t rows ht h)

good_usage :
    (ws : Str) (full returned : ℤ)
    → bad_usage ws full returned ≡ false
    → pos_part returned ≤ pos_part full
unfolding bad_usage
good_usage ws full returned h = ground arith

record_context_usage-AllBalanced :
    (uuid : Str → Option Str) (day : ℕ) (ws : Str) (full returned : ℤ) (rows : List UsageRow)
    (fs : Faults)
    → AllBalanced rows
    → AllBalanced (record_context_usage uuid day ws full returned rows fs).1
unfolding record_context_usage
record_context_usage-AllBalanced uuid day ws full returned rows fs h =
    if-rule (λ (r : Result (Unit {0}) × List UsageRow). AllBalanced r.1)
      (bad_usage ws full returned) (λ _. h)
      (λ good.
        run-rule (λ _ rows'. AllBalanced rows') _ rows fs (λ _. h)
          (count_tx-Sat (uuid ws) day (retrieval (pos_part full) (pos_part returned)) rows
            (retrieval-Balanced (pos_part full) (pos_part returned)
              (good_usage ws full returned good))
            h))

day_totals-Balanced :
    (scope : Str → Bool) (day : ℕ) (rows : List UsageRow)
    → AllBalanced rows
    → Balanced (day_totals scope day rows)
unfolding day_totals
day_totals-Balanced scope day [] h = refl
day_totals-Balanced scope day (row ∷ rows) h =
    elim (Bool-cases (scope row.workspace_id && row.day == day)) [
      | inl here ↦ rw here (
          plus-Balanced row.totals (day_totals scope day rows) h.0
            (day_totals-Balanced scope day rows h.1))
      | inr there ↦ rw there (day_totals-Balanced scope day rows h.1)
    ]

sum_totals-Balanced :
    (t : UsageTotals) (scope : Str → Bool) (first n : ℕ) (rows : List UsageRow)
    → Balanced t
    → AllBalanced rows
    → Balanced (sum_totals t (daily scope first n rows))
unfolding sum_totals daily
sum_totals-Balanced t scope first zero rows ht h = ht
sum_totals-Balanced t scope first (suc n) rows ht h =
    sum_totals-Balanced (plus t (day_totals scope first rows)) scope (first + 1) n rows
      (plus-Balanced t (day_totals scope first rows) ht (day_totals-Balanced scope first rows h)) h

-- The requests that are counted.
pub record Request : Type 0 where
  pub day : ℕ
  pub ws : Str
  pub full : ℤ
  pub returned : ℤ
  pub faults : Faults

-- The counters behind a sequence of requests.
unfoldable pub counted : (Str → Option Str) → List Request → List UsageRow → List UsageRow
counted uuid [] rows = rows
counted uuid (r ∷ rs) rows =
    counted uuid rs (record_context_usage uuid r.day r.ws r.full r.returned rows r.faults).1

counted-AllBalanced :
    (uuid : Str → Option Str) (rs : List Request) (rows : List UsageRow)
    → AllBalanced rows
    → AllBalanced (counted uuid rs rows)
unfolding counted
counted-AllBalanced uuid [] rows h = h
counted-AllBalanced uuid (r ∷ rs) rows h =
    counted-AllBalanced uuid rs _
      (record_context_usage-AllBalanced uuid r.day r.ws r.full r.returned rows r.faults h)

-- Behind any sequence of counted requests, with any sizes and any failing statements, the totals of
-- every report add up: the returned tokens and the saved ones are the baseline.
pub usage_where-Balanced :
    (uuid : Str → Option Str) (rs : List Request) (scope : Str → Bool) (today : ℕ)
    → Balanced (usage_where scope today (counted uuid rs [])).totals
unfolding usage_where
usage_where-Balanced uuid rs scope today =
    sum_totals-Balanced no_usage scope (today - 29) 30 (counted uuid rs []) refl
      (counted-AllBalanced uuid rs [] tt)

-- What `PackContext` returned for a budget of at least 0 is counted, for a workspace that is a UUID
-- and when no statement fails: one retrieval, with the tokens of the full text and of the returned
-- one, is added to the row of the workspace and the day.
pub count_context-accepts :
    (uuid : Str → Option Str) (day : ℕ) (ws w : Str) (memories : List Memory) (n : ℕ)
    (rows : List UsageRow)
    → valid_uuid ws ≡ true
    → uuid ws ≡ some w
    → count_context uuid day ws memories (pack_context memories (pos n)) rows [] ≡ (
      ok tt,
      add_usage w day
          (retrieval (full_context_characters memories) (pack_context memories (pos n)).characters)
          rows,
    )
unfolding count_context record_context_usage count_tx
count_context-accepts uuid day ws w memories n rows valid reads =
    let fits = pack_context_budget memories n in
    let good : bad_usage ws (pos (full_context_characters memories))
          (pos (pack_context memories (pos n)).characters)
        ≡ false =
      unfold bad_usage in ground arith in
    rw (good, reads) (unfold run exec in refl)
