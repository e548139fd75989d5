-- ===== src/Server/Judgements/Exact.antt =====
-- The rule IDs of judgements against those of the rules (internal/server/decision_feedback.go).
use kasane_mcp.Prelude.{
  ℕ, ◌+◌, ◌≤◌, ◌≡◌, refl, true, List, [], ◌∷◌, map, Str, str_eq, str_eq_iff, ap, suc, arith,
  if◌then◌else◌, length, ok,
}
use kasane_mcp.Table.{bit}
use kasane_mcp.Core.Validation.{member}
use kasane_mcp.Server.Judgements.{
  RuleReference, Judgement, good_ids, delete, good_judgements, validate_judgements,
}

-- How often a text stands in a list.
unfoldable pub occurrences : Str → List Str → ℕ
occurrences x [] = 0
occurrences x (y ∷ ys) = bit (str_eq x y) + occurrences x ys

abbrev pub rule_ids : List RuleReference → List Str
rule_ids rules = map (λ (r : RuleReference). r.id) rules

abbrev pub judged_ids : List Judgement → List Str
judged_ids labels = map (λ (j : Judgement). j.rule_id) labels

good_ids-once :
    (seen ids : List Str) (x : Str)
    → good_ids seen ids ≡ true
    → occurrences x ids + bit (member x seen) ≤ 1
unfolding good_ids occurrences member
good_ids-once seen [] x h = ground arith
good_ids-once seen (id ∷ ids) x h = ground (arith, str_eq_iff x id, good_ids-once (id ∷ seen) ids x)

member-occurs : (x : Str) (xs : List Str) → member x xs ≡ true → 1 ≤ occurrences x xs
unfolding member occurrences
member-occurs x [] h = cc
member-occurs x (y ∷ ys) h = ground (arith, member-occurs x ys)

occurrences-delete :
    (x id : Str) (xs : List Str)
    → occurrences x (delete id xs) ≡ (if str_eq id x then 0 else occurrences x xs)
unfolding occurrences delete
occurrences-delete x id [] = ground arith
occurrences-delete x id (y ∷ ys) =
    ground (arith, str_eq_iff id y, str_eq_iff x y, str_eq_iff id x, occurrences-delete x id ys)

length-delete : (id : Str) (xs : List Str) → length (delete id xs) + occurrences id xs ≡ length xs
unfolding occurrences delete
length-delete id [] = refl
length-delete id (y ∷ ys) = ground (arith, length-delete id ys)

-- From IDs that stand there once, as many accepted judgements take each of them once.
good_judgements-exact :
    (ids : List Str) (js : List Judgement)
    → ((x : Str) → occurrences x ids ≤ 1)
    → length js ≡ length ids
    → good_judgements ids js ≡ true
    → (x : Str) → occurrences x (judged_ids js) ≡ occurrences x ids
unfolding good_judgements occurrences
good_judgements-exact [] [] once len h x = refl
good_judgements-exact (y ∷ ids) [] once len h x = ground arith
good_judgements-exact ids (j ∷ js) once len h x =
    let here = member-occurs j.rule_id ids (ground arith) in
    let shorter = length-delete j.rule_id ids in
    let one = once j.rule_id in
    let ih =
      good_judgements-exact (delete j.rule_id ids) js
        (λ z. ground (arith, occurrences-delete z j.rule_id ids, once z)) (omega arith)
        (ground arith) x in
    ground (
      arith,
      ih,
      occurrences-delete x j.rule_id ids,
      str_eq_iff x j.rule_id,
      str_eq_iff j.rule_id x,
      once x,
      here,
    )

length-rule_ids : (rules : List RuleReference) → length (rule_ids rules) ≡ length rules
length-rule_ids [] = refl
length-rule_ids (r ∷ rules) = ap suc (length-rule_ids rules)

good_ids-at-most :
    (rules : List RuleReference)
    → good_ids [] (rule_ids rules) ≡ true
    → (x : Str) → occurrences x (rule_ids rules) ≤ 1
good_ids-at-most rules h x = omega (arith, good_ids-once [] (rule_ids rules) x h)

-- Judgements that are accepted name each rule of the request exactly as often as the request does,
-- which is at most once, and nothing else.
pub validate_judgements-exact :
    (rules : List RuleReference) (labels : List Judgement)
    → validate_judgements rules labels ≡ ok tt
    → (x : Str)
    → (occurrences x (judged_ids labels) ≡ occurrences x (rule_ids rules))
      × (occurrences x (rule_ids rules) ≤ 1)
unfolding validate_judgements
validate_judgements-exact rules labels h x =
    let sizes : length labels ≡ length rules = ground arith in
    let ids_good : good_ids [] (rule_ids rules) ≡ true = ground arith in
    let judged : good_judgements (rule_ids rules) labels ≡ true = ground arith in
    let once = good_ids-at-most rules ids_good in
    (
      good_judgements-exact (rule_ids rules) labels once
          (omega (arith, sizes, length-rule_ids rules)) judged x,
      once x,
    )
