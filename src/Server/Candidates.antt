-- ===== src/Server/Candidates.antt =====
-- `App.relevance` of internal/server/decision.go: the selected practices, read from the store, and
-- the answer of the decision service about them.
use text.Mathlib.Text.{◌==◌ as text_eq}
use kasane_mcp.Prelude.{
  Bool, ◌&&◌, ◌||◌, not, List, [], ◌∷◌, Str, ltb, ◌==◌, length, map, pos, ltb_ℤ, if◌then◌else◌,
  Result, ok, err, invalid, conflict,
}
use kasane_mcp.Tx.{Tx, Faults, pure, raise, ◌>>=◌, run}
use kasane_mcp.Core.Types.{Memory}
use kasane_mcp.Core.Ids.{valid_id, valid_uuid}
use kasane_mcp.Core.Validation.{member}
use kasane_mcp.Store.Schema.{Env, Db}
use kasane_mcp.Store.Records.{get_tx}
use kasane_mcp.Decision.{Rule, Request, Response}
use kasane_mcp.Server.Judgements.{RuleReference, RelevanceInput}

pub record RelevanceResult : Type 0 where
  pub response : Response
  pub rules : List Memory

-- ref.ExpectedRevision > 0 && ref.ExpectedRevision != memory.Revision
unfoldable pub outdated : RuleReference → Memory → Bool
outdated ref m =
    ltb_ℤ (pos 0) ref.expected_revision
    && (ltb_ℤ ref.expected_revision (pos m.revision)
        || ltb_ℤ (pos m.revision) ref.expected_revision)

unfoldable pub rule_of : RuleReference → Memory → Rule
rule_of ref m = record { id = m.id; text = m.content; required = ref.required; paths = ref.paths }

-- `Store.Get`, which reads nothing for an ID that is no UUID.
unfoldable pub read_tx : Env → Str → Str → Tx Db Memory
read_tx env ws id = if not (valid_uuid id) then raise invalid else get_tx env ws id

-- The loop over the references, with the IDs seen.
unfoldable pub candidates_tx :
    Env → Str → List Str → List RuleReference → Tx Db (List (Rule × Memory))
candidates_tx env ws seen [] = pure []
candidates_tx env ws seen (ref ∷ refs) =
    let rest = candidates_tx env ws (ref.id ∷ seen) refs in
    let with_memory = do
      m ← read_tx env ws ref.id
      if outdated ref m
          then raise conflict
          else if not (text_eq m.kind "practice")
          then raise invalid
          else (do found ← rest; pure ((rule_of ref m, m) ∷ found))
    in if not (valid_id ref.id) || member ref.id seen then raise invalid else with_memory

unfoldable pub request_of : RelevanceInput → List (Rule × Memory) → Request
request_of in' found = record {
  task = in'.task;
  paths = in'.paths;
  context = in'.context;
  rules = map (λ (p : Rule × Memory). p.0) found;
}

answered : List (Rule × Memory) → Result Response → Result RelevanceResult
answered found (err e) = err e
answered found (ok response) =
    ok (record { response = response; rules = map (λ (p : Rule × Memory). p.1) found })

ask :
    (Request → Result Response)
    → RelevanceInput
    → Result (List (Rule × Memory))
    → Result RelevanceResult
unfolding answered
ask call in' (err e) = err e
ask call in' (ok found) = answered found (call (request_of in' found))

-- `call` is the client's `Relevance`.
unfoldable pub relevance :
    Env → (Request → Result Response) → Str → RelevanceInput → Db → Faults → Result RelevanceResult
unfolding ask
relevance env call ws in' db fs =
    if (length in'.rules == 0) || ltb 64 (length in'.rules)
    then err invalid
    else ask call in' (run (candidates_tx env ws [] in'.rules) db fs).0
