-- ===== src/Examples/Core.antt =====
-- Examples of internal/core.
use kasane_mcp.Prelude.{
  ℕ, ◌≤◌, ◌≡◌, refl, Bool, true, false, List, [], ◌∷◌, Str, ℤ, pos, ltb, arith, Result, ok,
  replicate,
}
use kasane_mcp.GoText.{len}
use kasane_mcp.Core.Ids.{valid_id, valid_uuid}
use kasane_mcp.Core.Pack.{pack_context, full_context_characters}
use kasane_mcp.Core.Pack.Budget.{Exact, pack_context_budget, pack_context_truncated}
use kasane_mcp.Core.Pack.Prefix.{Shows, full_text, memory_ids, pack_context-Shows}
use kasane_mcp.Core.Validation.{validate, validate_search}
use kasane_mcp.Core.Validation.Accepted.{Accepted, validate-Accepted}
use kasane_mcp.Core.Validation.Search.{validate_search_idem}
use kasane_mcp.Examples.Fixtures.{ascii, ascii_laws, raw, accepted, raw_search, good_search, memory}

validate_run : validate ascii raw ≡ ok accepted
unfolding validate kasane_mcp.Core.Validation.bad_text kasane_mcp.GoText.trim_space
    kasane_mcp.GoText.is_space len kasane_mcp.GoText.valid_string
    kasane_mcp.Core.Validation.unsearchable kasane_mcp.GoText.contains_func
    kasane_mcp.Core.Validation.bad_metadata kasane_mcp.Core.Validation.bad_update
    kasane_mcp.Core.Validation.normalize_tags kasane_mcp.GoText.to_lower
    kasane_mcp.Core.Validation.member kasane_mcp.Prelude.str_eq
validate_run = refl

validate-Accepted_example : Accepted ascii accepted
validate-Accepted_example = validate-Accepted ascii ascii_laws raw validate_run

search_run : validate_search ascii raw_search ≡ ok good_search
unfolding validate_search kasane_mcp.Core.Validation.out_of_bounds len kasane_mcp.GoText.trim_space
    kasane_mcp.GoText.is_space kasane_mcp.GoText.to_lower
search_run = refl

validate_search_idem_example : validate_search ascii good_search ≡ ok good_search
validate_search_idem_example = validate_search_idem ascii ascii_laws raw_search search_run

pack_context_budget_example :
    Exact (pack_context (memory ∷ []) (pos 20))
    × ((pack_context (memory ∷ []) (pos 20)).characters ≤ 20)
    × ((pack_context (memory ∷ []) (pos 20)).characters ≤ full_context_characters (memory ∷ []))
pack_context_budget_example = pack_context_budget (memory ∷ []) 20

pack_context_truncated_example :
    (pack_context (memory ∷ []) (pos 10)).truncated ≡ ltb 10 (full_context_characters (memory ∷ []))
pack_context_truncated_example = pack_context_truncated (memory ∷ []) 10 (omega arith)

pack_context-Shows_example :
    Shows (full_text (memory ∷ [])) (memory_ids (memory ∷ [])) (pack_context (memory ∷ []) (pos 17))
pack_context-Shows_example = pack_context-Shows (memory ∷ []) 17

full_run : full_context_characters (memory ∷ []) ≤ 100
unfolding full_context_characters kasane_mcp.Core.Pack.header
full_run = omega arith

-- A text of 36 dashes passes the check of internal/core/validation.go, and not the one of
-- internal/store/store.go.
dashes_run : (valid_id (replicate 36 b'-') ≡ true) × (valid_uuid (replicate 36 b'-') ≡ false)
unfolding valid_id valid_uuid
dashes_run = (refl, refl)
