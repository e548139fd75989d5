-- ===== src/Core/Validation.antt =====
-- `Validate` of internal/core/validation.go, for a memory to save and for a search.
pub mod Tags
pub mod Accepted
pub mod Search
use text.Mathlib.Text.{◌==◌ as text_eq}
use kasane_mcp.Prelude.{
  ℕ, Bool, true, false, ◌&&◌, ◌||◌, not, List, [], ◌∷◌, ◌++◌, String, Str, str_eq, ltb, ltb_ℤ, ℤ,
  pos, if◌then◌else◌, length, Result, ok, err, invalid,
}
use kasane_mcp.GoText.{Unicode, len, valid_string, contains_func, trim_space, to_lower}
use kasane_mcp.Core.Types.{RememberInput, SearchInput}
use kasane_mcp.Core.Ids.{valid_id}

abbrev pub known_kind : String → Bool
known_kind k = text_eq k "memory" || text_eq k "stack" || text_eq k "practice"

abbrev pub is_empty : Str → Bool
is_empty [] = true
is_empty (c ∷ s) = false

-- in.Kind == "" stands for "memory".
abbrev pub default_kind : String → String
default_kind k = if text_eq k "" then "memory" else k

unfoldable pub member : Str → List Str → Bool
member t [] = false
member t (s ∷ ss) = str_eq t s || member t ss

-- The loop over the tags; `tags` holds those kept so far, which are those seen.
unfoldable pub normalize_tags : Unicode → List Str → List Str → Result (List Str)
normalize_tags u [] tags = ok tags
normalize_tags u (raw ∷ rest) tags =
    let tag = to_lower u (trim_space raw) in
    let skipped = normalize_tags u rest tags in
    let kept = normalize_tags u rest (tags ++ tag ∷ []) in
    if ltb 64 (len tag)
    then err invalid
    else if not (is_empty tag) && not (member tag tags)
    then kept
    else skipped

-- The conditions of the early returns, in their order.
unfoldable pub bad_text : RememberInput → Bool
bad_text in' =
    is_empty in'.title
    || ltb 240 (len in'.title)
    || is_empty (trim_space in'.content)
    || ltb 65536 (len in'.content)
    || not (valid_string in'.content)
    || not (valid_string in'.title)

unfoldable pub unsearchable : Unicode → RememberInput → Bool
unsearchable u in' =
    not (contains_func u.is_letter (in'.title ++ in'.content))
    && not (contains_func u.is_number (in'.title ++ in'.content))

unfoldable pub bad_metadata : RememberInput → Bool
bad_metadata in' =
    ltb 2048 (len in'.source) || ltb 32 (length in'.tags) || ltb 128 (len in'.idempotency_key)

unfoldable pub bad_update : RememberInput → Bool
bad_update in' =
    not (is_empty in'.id) && (not (valid_id in'.id) || ltb_ℤ in'.expected_revision (pos 1))

with_tags : RememberInput → Result (List Str) → Result RememberInput
with_tags in' (err e) = err e
with_tags in' (ok tags) = ok (record in' { tags = tags })

trimmed : RememberInput → RememberInput
trimmed raw = record raw { title = trim_space raw.title; kind = default_kind raw.kind }

unfoldable pub validate : Unicode → RememberInput → Result RememberInput
unfolding with_tags trimmed
validate u raw =
    let in' = trimmed raw in
    if not (known_kind in'.kind)
    then err invalid
    else if bad_text in'
    then err invalid
    else if unsearchable u in'
    then err invalid
    else if bad_metadata in'
    then err invalid
    else if bad_update in'
    then err invalid
    else with_tags in' (normalize_tags u in'.tags [])

default_limit : ℤ → ℤ
default_limit (pos ℕ.zero) = pos 10
default_limit n = n

normalized_search : Unicode → SearchInput → SearchInput
unfolding default_limit
normalized_search u raw = record raw {
  query = trim_space raw.query;
  tag = to_lower u (trim_space raw.tag);
  limit = default_limit raw.limit;
}

unfoldable pub out_of_bounds : SearchInput → Bool
out_of_bounds in' =
    ltb_ℤ in'.limit (pos 1)
    || ltb_ℤ (pos 50) in'.limit
    || ltb_ℤ in'.offset (pos 0)
    || ltb_ℤ (pos 10000) in'.offset
    || ltb 2048 (len in'.query)
    || ltb 64 (len in'.tag)

unfoldable pub validate_search : Unicode → SearchInput → Result SearchInput
unfolding normalized_search
validate_search u raw =
    let in' = normalized_search u raw in
    if out_of_bounds in'
    then err invalid
    else if not (text_eq in'.kind "") && not (known_kind in'.kind)
    then err invalid
    else ok in'
