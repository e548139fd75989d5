-- ===== src/Core/Pack/Prefix.antt =====
-- The text of `PackContext` (internal/core/validation.go) against the whole text of the memories.
use kasane_mcp.Prelude.{
  ℕ, zero, suc, ◌-◌, ◌<◌, ◌≤◌, ◌≡◌, refl, sym, ap, ◌∙◌, Bool, true, false, List, [], ◌∷◌, ◌++◌, map,
  Str, pos, arith, ltb, leb, length, take, drop, take-append-drop, append-nil, append_assoc,
  if◌then◌else◌,
}
use mathlib.Core.Path.{◌≡⟨◌⟩◌, ◌∎}
use kasane_mcp.Core.Types.{Memory, ContextResult}
use kasane_mcp.Core.Pack.{header, body, packed, pack_from, pack_context, full_context_characters}
use kasane_mcp.Core.Pack.Budget.{pack_context_truncated}

-- All blocks, one behind the other.
abbrev pub full_text : List Memory → Str
full_text [] = []
full_text (m ∷ ms) = header m ++ body m ++ full_text ms

abbrev pub memory_ids : List Memory → List Str
memory_ids ms = map (λ (m : Memory). m.id) ms

-- `s` begins `t`.
abbrev pub Begins {ℓ} : {A : Type ℓ} → List A → List A → Type ℓ
Begins {A = A} s t = (rest : List A) × (s ++ rest ≡ t)

pub record Shows (text : Str) (ids : List Str) (r : ContextResult) : Type 0 where
  pub text_begins : Begins r.text text
  pub ids_begin : Begins r.memory_ids ids

cut-Begins :
    (k : ℕ) (text h b rest : Str) → Begins (text ++ h ++ take k b) (text ++ (h ++ b ++ rest))
cut-Begins k text h b rest = (
  drop k b ++ rest,
  (text ++ h ++ take k b ++ (drop k b ++ rest)
      ≡⟨ sym (append_assoc (text ++ h ++ take k b) (drop k b) rest) ⟩
        (text ++ h ++ take k b ++ drop k b ++ rest)
      ≡⟨ ap (λ (s : Str). s ++ rest) (append_assoc (text ++ h) (take k b) (drop k b)) ⟩
        (text ++ h ++ (take k b ++ drop k b) ++ rest)
      ≡⟨ rw (take-append-drop k b) (simp append_assoc) ⟩ (text ++ (h ++ b ++ rest)) ∎),
)

branch-Shows :
    {text : Str} {ids : List Str} (b c : Bool) {x y z : ContextResult}
    → Shows text ids x
    → Shows text ids y
    → Shows text ids z
    → Shows text ids (if b then x else if c then y else z)
branch-Shows true c hx hy hz = hx
branch-Shows false true hx hy hz = hy
branch-Shows false false hx hy hz = hz

module _ (text : Str) (ids : List Str) (m : Memory) (ms : List Memory) where
  stopped-Shows :
      Shows (text ++ full_text (m ∷ ms)) (ids ++ memory_ids (m ∷ ms)) (packed text ids true)
  stopped-Shows = record {
    text_begins = (full_text (m ∷ ms), refl);
    ids_begin = (memory_ids (m ∷ ms), refl);
  }

  cut-Shows :
      (k : ℕ)
      → Shows
          (text ++ full_text (m ∷ ms))
          (ids ++ memory_ids (m ∷ ms))
          (packed (text ++ header m ++ take k (body m)) (ids ++ m.id ∷ []) true)
  cut-Shows k = record {
    text_begins = cut-Begins k text (header m) (body m) (full_text ms);
    ids_begin = (memory_ids ms, append_assoc ids (m.id ∷ []) (memory_ids ms));
  }

  onward-Shows :
      {r : ContextResult}
      → Shows (text ++ header m ++ body m ++ full_text ms) (ids ++ m.id ∷ [] ++ memory_ids ms) r
      → Shows (text ++ full_text (m ∷ ms)) (ids ++ memory_ids (m ∷ ms)) r
  onward-Shows s = record {
    text_begins = (s.text_begins.0, s.text_begins.1 ∙ simp append_assoc);
    ids_begin = (s.ids_begin.0, s.ids_begin.1 ∙ append_assoc ids (m.id ∷ []) (memory_ids ms));
  }

pack_from-Shows :
    (budget : ℕ) (text : Str) (ids : List Str) (ms : List Memory)
    → Shows (text ++ full_text ms) (ids ++ memory_ids ms) (pack_from budget text ids ms)
unfolding pack_from
pack_from-Shows budget text ids [] = record { text_begins = ([], refl); ids_begin = ([], refl) }
pack_from-Shows budget text ids (m ∷ ms) =
    let room = budget - length text in
    let h = length (header m) in
    branch-Shows (leb room h) (ltb (room - h) (length (body m))) (stopped-Shows text ids m ms)
      (cut-Shows text ids m ms (room - h))
      (onward-Shows text ids m ms
        (pack_from-Shows budget (text ++ header m ++ body m) (ids ++ m.id ∷ []) ms))

pack_from-whole :
    (budget : ℕ) (text : Str) (ids : List Str) (ms : List Memory)
    → (pack_from budget text ids ms).truncated ≡ false
    → ((pack_from budget text ids ms).text ≡ text ++ full_text ms)
      × ((pack_from budget text ids ms).memory_ids ≡ ids ++ memory_ids ms)
unfolding pack_from
pack_from-whole budget text ids [] h = (sym (append-nil text), sym (append-nil ids))
pack_from-whole budget text ids (m ∷ ms) h = ground (
  arith,
  pack_from-whole budget (text ++ header m ++ body m) (ids ++ m.id ∷ []) ms,
  append_assoc ids (m.id ∷ []) (memory_ids ms),
  append_assoc (text ++ header m) (body m) (full_text ms),
  append_assoc text (header m) (body m ++ full_text ms),
  append_assoc (header m) (body m) (full_text ms),
)

-- For a budget of at least 0, the text that PackContext returns begins the text of all memories
-- with their headers, and the IDs that it returns begin the list of their IDs.
pub pack_context-Shows :
    (memories : List Memory) (n : ℕ)
    → Shows (full_text memories) (memory_ids memories) (pack_context memories (pos n))
unfolding pack_context
pack_context-Shows memories zero = record {
  text_begins = (full_text memories, refl);
  ids_begin = (memory_ids memories, refl);
}
pack_context-Shows memories (suc n) = pack_from-Shows (suc n) [] [] memories

-- For a budget above 0 that all memories with their headers fit, PackContext returns the whole
-- text and all IDs.
pub pack_context_whole :
    (memories : List Memory) (n : ℕ)
    → 0 < n
    → full_context_characters memories ≤ n
    → ((pack_context memories (pos n)).text ≡ full_text memories)
      × ((pack_context memories (pos n)).memory_ids ≡ memory_ids memories)
unfolding pack_context
pack_context_whole memories zero h fits = absurd (omega arith)
pack_context_whole memories (suc n) h fits =
    pack_from-whole (suc n) [] [] memories
      (pack_context_truncated memories (suc n) h ∙ ground arith)
