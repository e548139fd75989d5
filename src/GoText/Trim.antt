-- ===== src/GoText/Trim.antt =====
-- `strings.TrimSpace` and `strings.ToLower`, applied again.
use kasane_mcp.Prelude.{ℕ, ◌≡◌, refl, ap, ◌∙◌, inl, inr, false, [], ◌∷◌, Str, Bool-cases}
use kasane_mcp.GoText.{
  Unicode, rune, is_space, trim_left, keep_right, trim_right, trim_space, to_lower,
}

-- What the program relies on in the tables of lower case.
pub record LowerLaws (u : Unicode) : Type 0 where
  pub lower_idem : (c : ℕ) → u.lower (rune (u.lower (rune c))) ≡ u.lower (rune c)
  pub lower_space : (c : ℕ) → is_space (u.lower (rune c)) ≡ is_space c

-- The text is empty or begins with what is no space.
abbrev StartsSolid : Str → Type 0
StartsSolid [] = Unit {0}
StartsSolid (c ∷ s) = is_space c ≡ false

trim_left-StartsSolid : (s : Str) → StartsSolid (trim_left s)
unfolding trim_left
trim_left-StartsSolid [] = tt
trim_left-StartsSolid (c ∷ s) = elim (Bool-cases (is_space c)) [
  | inl e ↦ rw e (trim_left-StartsSolid s)
  | inr e ↦ rw e e
]

trim_left_solid : (s : Str) → StartsSolid s → trim_left s ≡ s
unfolding trim_left
trim_left_solid [] h = refl
trim_left_solid (c ∷ s) h = rw h

keep_right-StartsSolid : (c : ℕ) (r : Str) → is_space c ≡ false → StartsSolid (keep_right c r)
unfolding keep_right
keep_right-StartsSolid c [] h = rw h h
keep_right-StartsSolid c (d ∷ r) h = h

trim_right-StartsSolid : (s : Str) → StartsSolid s → StartsSolid (trim_right s)
unfolding trim_right
trim_right-StartsSolid [] h = tt
trim_right-StartsSolid (c ∷ s) h = keep_right-StartsSolid c (trim_right s) h

trim_right-keep_right :
    (c : ℕ) (r : Str) → trim_right r ≡ r → trim_right (keep_right c r) ≡ keep_right c r
unfolding trim_right
trim_right-keep_right c [] h = elim (Bool-cases (is_space c)) [
  | inl e ↦ rw (e, keep_right) refl
  | inr e ↦ rw (e, keep_right) (rw e)
]
trim_right-keep_right c (d ∷ r) h = ap (keep_right c) h

trim_right_idem : (s : Str) → trim_right (trim_right s) ≡ trim_right s
unfolding trim_right
trim_right_idem [] = refl
trim_right_idem (c ∷ s) = trim_right-keep_right c (trim_right s) (trim_right_idem s)

pub trim_space_idem : (s : Str) → trim_space (trim_space s) ≡ trim_space s
unfolding trim_space
trim_space_idem s =
    ap trim_right
      (trim_left_solid _ (trim_right-StartsSolid (trim_left s) (trim_left-StartsSolid s)))
    ∙ trim_right_idem (trim_left s)

module _ (u : Unicode) (laws : LowerLaws u) where
  trim_left-to_lower : (s : Str) → trim_left (to_lower u s) ≡ to_lower u (trim_left s)
  unfolding trim_left to_lower
  trim_left-to_lower [] = refl
  trim_left-to_lower (c ∷ s) = elim (Bool-cases (is_space c)) [
    | inl e ↦ rw (laws.lower_space c, e) (trim_left-to_lower s)
    | inr e ↦ rw (laws.lower_space c, e) refl
  ]

  keep_right-to_lower :
      (c : ℕ) (r : Str) → keep_right (u.lower (rune c)) (to_lower u r) ≡ to_lower u (keep_right c r)
  unfolding keep_right to_lower
  keep_right-to_lower c [] = elim (Bool-cases (is_space c)) [
    | inl e ↦ rw (laws.lower_space c, e) refl
    | inr e ↦ rw (laws.lower_space c, e) refl
  ]
  keep_right-to_lower c (d ∷ r) = refl

  trim_right-to_lower : (s : Str) → trim_right (to_lower u s) ≡ to_lower u (trim_right s)
  unfolding trim_right to_lower
  trim_right-to_lower [] = refl
  trim_right-to_lower (c ∷ s) =
      ap (keep_right (u.lower (rune c))) (trim_right-to_lower s)
      ∙ keep_right-to_lower c (trim_right s)

  to_lower_idem : (s : Str) → to_lower u (to_lower u s) ≡ to_lower u s
  unfolding to_lower
  to_lower_idem [] = refl
  to_lower_idem (c ∷ s) = cc (laws.lower_idem c, to_lower_idem s)

  trim_space-to_lower : (s : Str) → trim_space (to_lower u s) ≡ to_lower u (trim_space s)
  unfolding trim_space
  trim_space-to_lower s = ap trim_right (trim_left-to_lower s) ∙ trim_right-to_lower (trim_left s)

  -- A tag is normalised once and for all.
  pub normal_tag :
      (s : Str) → to_lower u (trim_space (to_lower u (trim_space s))) ≡ to_lower u (trim_space s)
  normal_tag s =
      ap (to_lower u) (trim_space-to_lower (trim_space s) ∙ ap (to_lower u) (trim_space_idem s))
      ∙ to_lower_idem (trim_space s)
