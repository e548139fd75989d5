-- ===== src/Core/Pack/Budget.antt =====
-- `PackContext` and its budget (internal/core/validation.go), and the full count of
-- internal/server/usage.go.
use kasane_mcp.Prelude.{
  ℕ, zero, suc, ◌+◌, ◌-◌, ◌≤◌, ◌<◌, ◌≡◌, refl, List, [], ◌∷◌, ◌++◌, Str, pos, arith, ltb, length,
  take, length-append, length-take, length-map,
}
use kasane_mcp.GoText.{rune, rune_count}
use kasane_mcp.Core.Types.{Memory, ContextResult}
use kasane_mcp.Core.Pack.{header, body, pack_from, pack_context, full_context_characters}

length-body : (m : Memory) → length (body m) ≡ length m.content + 2
unfolding body
length-body m = omega (
  arith,
  length-map (m.content ++ 0x0A ∷ 0x0A ∷ []) rune,
  length-append m.content (0x0A ∷ 0x0A ∷ []),
)

-- The characters of a text with a block behind it.
length-block : (text s t : Str) → length (text ++ s ++ t) ≡ length text + length s + length t
length-block text s t = omega (arith, length-append (text ++ s) t, length-append text s)

abbrev pub Exact : ContextResult → Type 0
Exact r = r.characters ≡ rune_count r.text

pack_from-Exact :
    (budget : ℕ) (text : Str) (ids : List Str) (ms : List Memory)
    → Exact (pack_from budget text ids ms)
unfolding pack_from
pack_from-Exact budget text ids [] = refl
pack_from-Exact budget text ids (m ∷ ms) =
    ground (arith, pack_from-Exact budget (text ++ header m ++ body m) (ids ++ m.id ∷ []) ms)

pack_from-within :
    (budget : ℕ) (text : Str) (ids : List Str) (ms : List Memory)
    → length text ≤ budget
    → (pack_from budget text ids ms).characters ≤ budget
unfolding pack_from
pack_from-within budget text ids [] fits = fits
pack_from-within budget text ids (m ∷ ms) fits = ground (
  arith,
  length-block text (header m) (take (budget - length text - length (header m)) (body m)),
  length-block text (header m) (body m),
  length-take (budget - length text - length (header m)) (body m),
  pack_from-within budget (text ++ header m ++ body m) (ids ++ m.id ∷ []) ms,
)

-- The packing stops early exactly when the blocks do not fit as a whole.
pack_from-truncated :
    (budget : ℕ) (text : Str) (ids : List Str) (ms : List Memory)
    → length text ≤ budget
    → (pack_from budget text ids ms).truncated
      ≡ ltb budget (length text + full_context_characters ms)
unfolding pack_from full_context_characters
pack_from-truncated budget text ids [] fits = ground arith
pack_from-truncated budget text ids (m ∷ ms) fits = ground (
  arith,
  length-body m,
  length-block text (header m) (body m),
  pack_from-truncated budget (text ++ header m ++ body m) (ids ++ m.id ∷ []) ms,
)

pack_from-full :
    (budget : ℕ) (text : Str) (ids : List Str) (ms : List Memory)
    → length text ≤ budget
    → (pack_from budget text ids ms).characters ≤ length text + full_context_characters ms
unfolding pack_from full_context_characters
pack_from-full budget text ids [] fits = ground arith
pack_from-full budget text ids (m ∷ ms) fits = ground (
  arith,
  length-body m,
  length-block text (header m) (body m),
  length-block text (header m) (take (budget - length text - length (header m)) (body m)),
  length-take (budget - length text - length (header m)) (body m),
  pack_from-full budget (text ++ header m ++ body m) (ids ++ m.id ∷ []) ms,
)

-- For a budget of at least 0, the count of characters that PackContext returns is that of its
-- text, is within the budget, and is at most the count of all memories with their headers.
pub pack_context_budget :
    (memories : List Memory) (n : ℕ)
    → Exact (pack_context memories (pos n))
      × ((pack_context memories (pos n)).characters ≤ n)
      × ((pack_context memories (pos n)).characters ≤ full_context_characters memories)
unfolding pack_context
pack_context_budget memories zero = ground arith
pack_context_budget memories (suc n) = (
  pack_from-Exact (suc n) [] [] memories,
  pack_from-within (suc n) [] [] memories (omega arith),
  omega (arith, pack_from-full (suc n) [] [] memories (omega arith)),
)

-- For a budget above 0, the result is marked as truncated exactly if the memories with their
-- headers have more characters than the budget.
pub pack_context_truncated :
    (memories : List Memory) (n : ℕ)
    → 0 < n
    → (pack_context memories (pos n)).truncated ≡ ltb n (full_context_characters memories)
unfolding pack_context
pack_context_truncated memories zero h = absurd (omega arith)
pack_context_truncated memories (suc n) h =
    ground (arith, pack_from-truncated (suc n) [] [] memories (omega arith))
