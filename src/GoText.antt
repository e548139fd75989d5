-- ===== src/GoText.antt =====
-- What the program uses of Go's `strings`, `unicode/utf8` and `unicode` on strings.
-- `unicode.IsSpace` is written out; the tables of letters, numbers and lower case come with the
-- record `Unicode`.
pub mod Trim
use kasane_mcp.Prelude.{
  ℕ, ◌+◌, ◌-◌, ◌/◌, ◌%◌, Bool, true, false, ◌||◌, ◌&&◌, List, [], ◌∷◌, ◌++◌, map, Str, ltb, leb,
  ◌==◌, if◌then◌else◌, length,
}

-- The tables of the package `unicode` that the program reads.
pub record Unicode : Type 0 where
  pub is_letter : ℕ → Bool
  pub is_number : ℕ → Bool
  pub lower : ℕ → ℕ

-- Bytes that one unit of a string takes.
abbrev pub rune_len : ℕ → ℕ
rune_len c =
    if ltb c 0x80
    then 1
    else if ltb c 0x800
    then 2
    else if ltb c 0x10000
    then 3
    else if ltb c 0x110000
    then 4
    else 1

-- len(s)
unfoldable pub len : Str → ℕ
len [] = 0
len (c ∷ s) = rune_len c + len s

-- utf8.RuneCountInString(s)
abbrev pub rune_count : Str → ℕ
rune_count s = length s

-- []rune(s): an invalid byte becomes U+FFFD.
abbrev pub rune : ℕ → ℕ
rune c = if ltb c 0x110000 then c else 0xFFFD

-- utf8.ValidString(s)
unfoldable pub valid_string : Str → Bool
valid_string [] = true
valid_string (c ∷ s) = ltb c 0x110000 && valid_string s

-- strings.ContainsFunc(s, p)
unfoldable pub contains_func : (ℕ → Bool) → Str → Bool
contains_func p [] = false
contains_func p (c ∷ s) = p (rune c) || contains_func p s

-- unicode.IsSpace(c)
unfoldable pub is_space : ℕ → Bool
is_space c =
    (leb 9 c && leb c 13)
    || c == 32
    || c == 0x85
    || c == 0xA0
    || c == 0x1680
    || (leb 0x2000 c && leb c 0x200A)
    || c == 0x2028
    || c == 0x2029
    || c == 0x202F
    || c == 0x205F
    || c == 0x3000

unfoldable pub trim_left : Str → Str
trim_left [] = []
trim_left (c ∷ s) = let rest = trim_left s in if is_space c then rest else c ∷ s

-- A unit before the trimmed rest stays if anything behind it stays or it is no space.
unfoldable pub keep_right : ℕ → Str → Str
keep_right c [] = if is_space c then [] else c ∷ []
keep_right c (d ∷ r) = c ∷ d ∷ r

unfoldable pub trim_right : Str → Str
unfolding keep_right
trim_right [] = []
trim_right (c ∷ s) = keep_right c (trim_right s)

-- strings.TrimSpace(s)
unfoldable pub trim_space : Str → Str
unfolding trim_left trim_right
trim_space s = trim_right (trim_left s)

-- strings.ToLower(s): an invalid byte becomes U+FFFD.
unfoldable pub to_lower : Unicode → Str → Str
to_lower u s = map (λ c. u.lower (rune c)) s

-- The bytes of one unit of a string, in UTF-8.
unfoldable pub rune_bytes : ℕ → List ℕ
rune_bytes c =
    if ltb c 0x80
    then c ∷ []
    else if ltb c 0x800
    then (0xC0 + c / 64) ∷ (0x80 + c % 64) ∷ []
    else if ltb c 0x10000
    then (0xE0 + c / 4096) ∷ (0x80 + c / 64 % 64) ∷ (0x80 + c % 64) ∷ []
    else if ltb c 0x110000
    then (0xF0 + c / 262144) ∷ (0x80 + c / 4096 % 64) ∷ (0x80 + c / 64 % 64) ∷ (0x80 + c % 64) ∷ []
    else (c - 0x110000) ∷ []

-- []byte(s)
unfoldable pub bytes : Str → List ℕ
unfolding rune_bytes
bytes [] = []
bytes (c ∷ s) = rune_bytes c ++ bytes s
