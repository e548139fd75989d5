-- ===== src/Core/Ids.antt =====
-- The two checks of an ID: `ValidID` of internal/core/validation.go and `validUUID` of
-- internal/store/store.go.
use kasane_mcp.Prelude.{
  ℕ, ◌+◌, ◌%◌, Bool, true, false, ◌&&◌, ◌||◌, List, [], ◌∷◌, Option, none, some, Str, leb, ◌==◌,
  if◌then◌else◌, length, get_elem?,
}
use kasane_mcp.GoText.{len, bytes, rune_len}

abbrev is_dash : Option ℕ → Bool
is_dash none = false
is_dash (some c) = c == b'-'

abbrev pub is_hex : ℕ → Bool
is_hex c = (leb b'0' c && leb c b'9') || (leb b'a' c && leb c b'f') || (leb b'A' c && leb c b'F')

-- strings.ReplaceAll(s, "-", "")
unfoldable pub without_dashes : List ℕ → List ℕ
without_dashes [] = []
without_dashes (c ∷ s) = if c == b'-' then without_dashes s else c ∷ without_dashes s

-- hex.DecodeString succeeds on an even number of hexadecimal digits.
unfoldable pub all_hex : List ℕ → Bool
all_hex [] = true
all_hex (c ∷ s) = is_hex c && all_hex s

decodes : List ℕ → Bool
unfolding all_hex
decodes s = (length s % 2 == 0) && all_hex s

unfoldable pub valid_id : Str → Bool
unfolding len bytes decodes without_dashes
valid_id s =
    (len s == 36)
    && is_dash (get_elem? (bytes s) 8)
    && is_dash (get_elem? (bytes s) 13)
    && is_dash (get_elem? (bytes s) 18)
    && is_dash (get_elem? (bytes s) 23)
    && decodes (without_dashes (bytes s))

dash_position : ℕ → Bool
dash_position i = i == 8 || i == 13 || i == 18 || i == 23

-- `for i, c := range v`, from the byte position `i` on.
uuid_from : ℕ → Str → Bool
unfolding dash_position
uuid_from i [] = true
uuid_from i (c ∷ s) =
    (if dash_position i then c == b'-' else is_hex c) && uuid_from (i + rune_len c) s

unfoldable pub valid_uuid : Str → Bool
unfolding len uuid_from
valid_uuid v = (len v == 36) && uuid_from 0 v
