-- ===== src/Core/Pack.antt =====
-- `PackContext` of internal/core/validation.go and `fullContextCharacters` of
-- internal/server/usage.go.
pub mod Budget
pub mod Prefix
use kasane_mcp.Prelude.{
  ℕ, zero, ◌+◌, ◌-◌, Bool, true, false, List, [], ◌∷◌, ◌++◌, map, Str, ℤ, pos, negsuc, ltb, leb,
  if◌then◌else◌, length, take,
}
use kasane_mcp.GoText.{rune, rune_count}
use kasane_mcp.Core.Types.{Memory, ContextResult}

-- fmt.Sprintf("[%s] %s\nSource: %s\n", m.ID, m.Title, m.Source)
unfoldable pub header : Memory → Str
header m =
    (b'[' ∷ m.id)
    ++ (b']' ∷ b' ' ∷ m.title)
    ++ (0x0A ∷ b'S' ∷ b'o' ∷ b'u' ∷ b'r' ∷ b'c' ∷ b'e' ∷ b':' ∷ b' ' ∷ m.source)
    ++ 0x0A ∷ []

-- []rune(m.Content + "\n\n")
unfoldable pub body : Memory → Str
body m = map rune (m.content ++ 0x0A ∷ 0x0A ∷ [])

abbrev pub empty_context : ContextResult
empty_context = record {
  text = [];
  memory_ids = [];
  characters = 0;
  truncated = false;
  degraded = false;
}

-- What is returned behind the loop: the text, the IDs and whether it broke off.
abbrev pub packed : Str → List Str → Bool → ContextResult
packed text ids truncated = record {
  text = text;
  memory_ids = ids;
  characters = rune_count text;
  truncated = truncated;
  degraded = false;
}

-- The loop over the memories, with the text and the IDs written so far.
unfoldable pub pack_from : ℕ → Str → List Str → List Memory → ContextResult
pack_from budget text ids [] = packed text ids false
pack_from budget text ids (m ∷ ms) =
    let remaining = budget - rune_count text in
    let h = rune_count (header m) in
    let cut = text ++ header m ++ take (remaining - h) (body m) in
    let on = pack_from budget (text ++ header m ++ body m) (ids ++ m.id ∷ []) ms in
    if leb remaining h
    then packed text ids true
    else if ltb (remaining - h) (length (body m))
    then packed cut (ids ++ m.id ∷ []) true
    else on

unfoldable pub pack_context : List Memory → ℤ → ContextResult
unfolding pack_from
pack_context memories (negsuc n) = empty_context
pack_context memories (pos zero) = empty_context
pack_context memories (pos (ℕ.suc n)) = pack_from (ℕ.suc n) [] [] memories

-- The characters of all memories with their headers, before the budget is applied.
unfoldable pub full_context_characters : List Memory → ℕ
full_context_characters [] = 0
full_context_characters (m ∷ ms) =
    rune_count (header m) + rune_count m.content + 2 + full_context_characters ms
