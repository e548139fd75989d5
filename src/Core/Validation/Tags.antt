-- ===== src/Core/Validation/Tags.antt =====
-- The loop over the tags in `RememberInput.Validate` (internal/core/validation.go).
use kasane_mcp.Prelude.{
  ◌≤◌, ◌≡◌, refl, sym, ap, ◌∙◌, Bool, true, false, List, [], ◌∷◌, ◌++◌, Str, arith, ltb, length,
  not, ◌&&◌, Result, ◌⊎◌, inl, inr, append-nil, append_assoc, ok, err, invalid, if◌then◌else◌,
}
use kasane_mcp.GoText.{Unicode, len, trim_space, to_lower}
use kasane_mcp.GoText.Trim.{LowerLaws, normal_tag}
use kasane_mcp.Core.Validation.{is_empty, member, normalize_tags}

-- A tag as it is stored: trimmed, in lower case, of 1 to 64 bytes.
pub record NormalTag (u : Unicode) (t : Str) : Type 0 where
  pub normal : to_lower u (trim_space t) ≡ t
  pub short : len t ≤ 64
  pub filled : is_empty t ≡ false

-- The tags are normal, and none stands among those before it or in `seen`.
abbrev pub Fresh : Unicode → List Str → List Str → Type 0
Fresh u seen [] = Unit {0}
Fresh u seen (t ∷ ts) = NormalTag u t × (member t seen ≡ false) × Fresh u (seen ++ t ∷ []) ts

-- The three ways through the body of the loop, if it returns no error.
kept_or_skipped :
    (long empty seen : Bool) {kept skipped : Result (List Str)} {out : List Str}
    → (if long then err invalid else if not empty && not seen then kept else skipped) ≡ ok out
    → (long ≡ false) × (((empty ≡ false) × (seen ≡ false) × (kept ≡ ok out)) ⊎ (skipped ≡ ok out))
kept_or_skipped true empty seen h = cc
kept_or_skipped false true seen h = (refl, inr h)
kept_or_skipped false false true h = (refl, inr h)
kept_or_skipped false false false h = (refl, inl (refl, refl, h))

-- What the loop adds to the tags that it has kept before.
pub record Kept (u : Unicode) (raws seen out : List Str) : Type 0 where
  pub added : List Str
  pub out_eq : out ≡ seen ++ added
  pub fresh : Fresh u seen added
  pub fewer : length added ≤ length raws

module _ (u : Unicode) where
  -- Normal tags pass unchanged.
  pub normalize_tags-Fresh :
      (ts seen : List Str) → Fresh u seen ts → normalize_tags u ts seen ≡ ok (seen ++ ts)
  unfolding normalize_tags
  normalize_tags-Fresh [] seen h = ap ok (sym (append-nil seen))
  normalize_tags-Fresh (t ∷ ts) seen h = rw h.0.normal (
      ground (
        arith,
        h.0.short,
        h.0.filled,
        h.1,
        normalize_tags-Fresh ts (seen ++ t ∷ []) h.2,
        append_assoc seen (t ∷ []) ts,
      ))

  Kept-skip :
      (raw : Str) (rest seen : List Str) {out : List Str}
      → Kept u rest seen out
      → Kept u (raw ∷ rest) seen out
  Kept-skip raw rest seen k = record {
    added = k.added;
    out_eq = k.out_eq;
    fresh = k.fresh;
    fewer = omega (arith, k.fewer);
  }

  Kept-add :
      (raw tag : Str) (rest seen : List Str) {out : List Str}
      → NormalTag u tag
      → member tag seen ≡ false
      → Kept u rest (seen ++ tag ∷ []) out
      → Kept u (raw ∷ rest) seen out
  Kept-add raw tag rest seen n new k = record {
    added = tag ∷ k.added;
    out_eq = k.out_eq ∙ append_assoc seen (tag ∷ []) k.added;
    fresh = (n, new, k.fresh);
    fewer = omega (arith, k.fewer);
  }

  module _ (laws : LowerLaws u) where
    pub normalize_tags-ok :
        (raws seen : List Str) {out : List Str}
        → normalize_tags u raws seen ≡ ok out
        → Kept u raws seen out
    unfolding normalize_tags
    normalize_tags-ok [] seen h = record {
      added = [];
      out_eq = cc (append-nil seen);
      fresh = tt;
      fewer = omega arith;
    }
    normalize_tags-ok (raw ∷ rest) seen h =
        let tag = to_lower u (trim_space raw) in
        let (short, way) = kept_or_skipped (ltb 64 (len tag)) (is_empty tag) (member tag seen) h in
        elim way [
          | inl (filled, new, kept) ↦
              Kept-add raw tag rest seen
                (record { normal = normal_tag u laws raw; short = ground arith; filled = filled })
                new (normalize_tags-ok rest (seen ++ tag ∷ []) kept)
          | inr skipped ↦ Kept-skip raw rest seen (normalize_tags-ok rest seen skipped)
        ]
