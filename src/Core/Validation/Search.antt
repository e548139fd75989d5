-- ===== src/Core/Validation/Search.antt =====
-- `SearchInput.Validate` of internal/core/validation.go. `Service.Search` validates what it then
-- hands to `Store.List`, which validates again (internal/search/service.go, internal/store/store.go).
use text.Mathlib.Text.{◌==◌ as text_eq}
use kasane_mcp.Prelude.{
  zero, suc, ◌≡◌, refl, subst, Bool, false, ◌&&◌, not, ℤ, pos, negsuc, ok, invalid, guard-ok,
  ok-injective,
}
use kasane_mcp.GoText.{Unicode}
use kasane_mcp.GoText.Trim.{LowerLaws, normal_tag, trim_space_idem}
use kasane_mcp.Core.Types.{SearchInput}
use kasane_mcp.Core.Validation.{
  known_kind, default_limit, normalized_search, out_of_bounds, validate_search,
}

abbrev bad_kind : SearchInput → Bool
bad_kind in' = not (text_eq in'.kind "") && not (known_kind in'.kind)

default_limit_idem : (n : ℤ) → default_limit (default_limit n) ≡ default_limit n
unfolding default_limit
default_limit_idem (pos zero) = refl
default_limit_idem (pos (suc n)) = refl
default_limit_idem (negsuc n) = refl

normalized_search_idem :
    (u : Unicode) (laws : LowerLaws u) (raw : SearchInput)
    → normalized_search u (normalized_search u raw) ≡ normalized_search u raw
unfolding normalized_search
normalized_search_idem u laws raw = λ i. record raw {
  query = trim_space_idem raw.query i;
  tag = normal_tag u laws raw.tag i;
  limit = default_limit_idem raw.limit i;
}

-- What passed is the normalised input, and its checks hold.
record Passed (u : Unicode) (raw out : SearchInput) : Type 0 where
  bounds : out_of_bounds (normalized_search u raw) ≡ false
  kinds : bad_kind (normalized_search u raw) ≡ false
  out_eq : normalized_search u raw ≡ out

validate_search-Passed :
    (u : Unicode) (raw : SearchInput) {out : SearchInput}
    → validate_search u raw ≡ ok out
    → Passed u raw out
unfolding validate_search
validate_search-Passed u raw h =
    let (bounds, h1) = guard-ok (out_of_bounds (normalized_search u raw)) invalid h in
    let (kinds, h2) = guard-ok (bad_kind (normalized_search u raw)) invalid h1 in
    record { bounds = bounds; kinds = kinds; out_eq = ok-injective h2 }

-- Where lower case is idempotent and keeps spaces apart from the rest: a search that was
-- validated is accepted again, unchanged.
pub validate_search_idem :
    (u : Unicode) (laws : LowerLaws u) (raw : SearchInput) {out : SearchInput}
    → validate_search u raw ≡ ok out
    → validate_search u out ≡ ok out
unfolding validate_search
validate_search_idem u laws raw h =
    let p = validate_search-Passed u raw h in
    subst (λ (s : SearchInput). validate_search u s ≡ ok s) p.out_eq
      (rw (normalized_search_idem u laws raw, validate_search) (rw p.bounds (rw p.kinds)))
