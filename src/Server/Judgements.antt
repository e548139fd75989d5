-- ===== src/Server/Judgements.antt =====
-- The judgements of an evaluation: `validateJudgements` and the input checks of `evaluateForReview`
-- in internal/server/decision_feedback.go.
pub mod Exact
use text.Mathlib.Text.{◌==◌ as text_eq}
use kasane_mcp.Prelude.{
  ℕ, Bool, true, false, ◌&&◌, ◌||◌, not, List, [], ◌∷◌, Option, none, some, String, Str, str_eq,
  ltb, ◌==◌, ℤ, pos, ltb_ℤ, map, if◌then◌else◌, length, Result, ok, err, invalid,
}
use kasane_mcp.GoText.{len, trim_space}
use kasane_mcp.Core.Ids.{valid_id}
use kasane_mcp.Core.Validation.{is_empty, member}

pub record RuleReference : Type 0 where
  pub expected_revision : ℤ
  pub id : Str
  pub required : Bool
  pub paths : List Str

pub record RelevanceInput : Type 0 where
  pub task : Str
  pub paths : List Str
  pub context : Option Str
  pub rules : List RuleReference

pub record Judgement : Type 0 where
  pub rule_id : Str
  pub label : String
  pub rationale : Str

pub record EvaluationInput : Type 0 where
  pub workspace_id : Str
  pub evaluation_id : Str
  pub source_group : Str
  pub source_origin : String
  pub agent_model : Str
  pub relevance : RelevanceInput
  pub judgements : List Judgement

unfoldable pub valid_origin_label : String → Bool
valid_origin_label v = text_eq v "real" || text_eq v "authored" || text_eq v "synthetic"

-- The loop over the rules, with the IDs seen.
unfoldable pub good_ids : List Str → List Str → Bool
good_ids seen [] = true
good_ids seen (id ∷ ids) = not (not (valid_id id) || member id seen) && good_ids (id ∷ seen) ids

-- delete(ids, id)
unfoldable pub delete : Str → List Str → List Str
delete id [] = []
delete id (x ∷ xs) = let rest = delete id xs in if str_eq id x then rest else x ∷ rest

unfoldable pub good_judgement : Judgement → Bool
good_judgement j =
    (text_eq j.label "relevant"
      || text_eq j.label "not_relevant"
      || text_eq j.label "insufficient_context")
    && not (is_empty (trim_space j.rationale))
    && not (ltb 2000 (len j.rationale))

-- The loop over the labels, with the IDs that wait for one.
unfoldable pub good_judgements : List Str → List Judgement → Bool
good_judgements ids [] = true
good_judgements ids (j ∷ js) =
    member j.rule_id ids && good_judgement j && good_judgements (delete j.rule_id ids) js

unfoldable pub validate_judgements : List RuleReference → List Judgement → Result (Unit {0})
validate_judgements rules labels =
    let ids = map (λ (r : RuleReference). r.id) rules in
    if ltb (length rules) 1 || ltb 64 (length rules) || not (length labels == length rules)
    then err invalid
    else if not (good_ids [] ids)
    then err invalid
    else if not (good_judgements ids labels)
    then err invalid
    else ok tt

unfoldable pub long_path : List Str → Bool
long_path [] = false
long_path (p ∷ ps) = ltb 1024 (len p) || long_path ps

unfoldable pub bad_references : List RuleReference → Bool
bad_references [] = false
bad_references (r ∷ rs) =
    ltb_ℤ r.expected_revision (pos 1)
    || ltb 64 (length r.paths)
    || long_path r.paths
    || bad_references rs

abbrev long_context : Option Str → Bool
long_context none = false
long_context (some c) = ltb 65536 (len c)

unfoldable pub bad_source : EvaluationInput → Bool
bad_source in' =
    not (valid_id in'.evaluation_id)
    || not (valid_origin_label in'.source_origin)
    || is_empty (trim_space in'.source_group)
    || ltb 256 (len in'.source_group)
    || is_empty (trim_space in'.agent_model)
    || ltb 128 (len in'.agent_model)

unfoldable pub bad_input : RelevanceInput → Bool
bad_input in' =
    ltb 16384 (len in'.task)
    || ltb 64 (length in'.paths)
    || long_context in'.context
    || long_path in'.paths
    || bad_references in'.rules

checked_input : EvaluationInput → Result (Unit {0}) → Result (Unit {0})
checked_input in' (err e) = err e
checked_input in' (ok t) = if bad_input in'.relevance then err invalid else ok tt

-- `evaluateForReview` before it reads the store; `days` is DECISION_FEEDBACK_RETENTION_DAYS.
unfoldable pub check_evaluation : ℕ → EvaluationInput → Result (Unit {0})
unfolding checked_input
check_evaluation days in' =
    if days == 0
    then err invalid
    else if bad_source in'
    then err invalid
    else checked_input in' (validate_judgements in'.relevance.rules in'.judgements)
