-- ===== src/Table.antt =====
-- The tables of internal/store/*.sql that have a primary key: rows under their key. At most one row
-- has a key, so what SQL does to "every" row with it is done to the first.
pub mod Laws
use kasane_mcp.Prelude.{ℕ, ◌+◌, Bool, List, [], ◌∷◌, Option, none, some, Str, str_eq, if◌then◌else◌}

abbrev pub Table {ℓ} : Type ℓ → Type ℓ
Table V = List (Str × V)

abbrev pub bit : Bool → ℕ
bit b = if b then 1 else 0

module _ {ℓ} {V : Type ℓ} where
  -- WHERE key = k
  unfoldable pub lookup : Str → Table V → Option V
  lookup k [] = none
  lookup k ((j, v) ∷ t) = if str_eq j k then some v else lookup k t

  -- UPDATE … WHERE key = k
  unfoldable pub modify : Str → (V → V) → Table V → Table V
  modify k f [] = []
  modify k f ((j, v) ∷ t) = if str_eq j k then (j, f v) ∷ t else (j, v) ∷ modify k f t

  -- DELETE … WHERE key = k
  unfoldable pub remove : Str → Table V → Table V
  remove k [] = []
  remove k ((j, v) ∷ t) = let rest = remove k t in if str_eq j k then rest else (j, v) ∷ rest

  -- count(*) … WHERE p
  unfoldable pub count : (V → Bool) → Table V → ℕ
  count p [] = 0
  count p ((j, v) ∷ t) = bit (p v) + count p t

  -- The first row with p, and its key.
  unfoldable pub find_row : (V → Bool) → Table V → Option (Str × V)
  find_row p [] = none
  find_row p ((j, v) ∷ t) = if p v then some (j, v) else find_row p t

  -- UPDATE … WHERE p
  unfoldable pub modify_where : (V → Bool) → (V → V) → Table V → Table V
  modify_where p f [] = []
  modify_where p f ((j, v) ∷ t) = (j, if p v then f v else v) ∷ modify_where p f t
