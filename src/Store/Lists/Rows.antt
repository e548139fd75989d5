-- ===== src/Store/Lists/Rows.antt =====
-- The rows that the SELECTs of the lists of internal/store/store.go choose, and how they are read.
use kasane_mcp.Prelude.{
  ℕ, suc, zero, ◌≡◌, refl, ◌⊎◌, Bool, true, List, [], ◌∷◌, map, Str, take, drop, if-rule, inl, inr,
}
use kasane_mcp.Table.{Table}
use kasane_mcp.Core.Types.{Memory}
use kasane_mcp.Store.Schema.{MemoryRow, scan_memory}
use kasane_mcp.Store.Lists.{insert_by, sort_by, rows_where, scan_row}

module _ {A : Type 0} where
  abbrev pub All : (A → Type 0) → List A → Type 0
  All P [] = Unit {0}
  All P (a ∷ xs) = P a × All P xs

module _ {A : Type 0} (P : A → Type 0) where
  pub All-take : (n : ℕ) (xs : List A) → All P xs → All P (take n xs)
  All-take zero xs h = tt
  All-take (suc n) [] h = tt
  All-take (suc n) (x ∷ xs) h = (h.0, All-take n xs h.1)

  pub All-drop : (n : ℕ) (xs : List A) → All P xs → All P (drop n xs)
  All-drop zero xs h = h
  All-drop (suc n) [] h = tt
  All-drop (suc n) (x ∷ xs) h = All-drop n xs h.1

  All-insert_by :
      (less : A → A → Bool) (a : A) (xs : List A) → P a → All P xs → All P (insert_by less a xs)
  unfolding insert_by
  All-insert_by less a [] p h = (p, tt)
  All-insert_by less a (b ∷ xs) p h =
      if-rule (All P) (less a b) (λ _. (p, h)) (λ _. (h.0, All-insert_by less a xs p h.1))

  pub All-sort_by : (less : A → A → Bool) (xs : List A) → All P xs → All P (sort_by less xs)
  unfolding sort_by
  All-sort_by less [] h = tt
  All-sort_by less (a ∷ xs) h = All-insert_by less a (sort_by less xs) h.0 (All-sort_by less xs h.1)

  All-map : {Q : A → Type 0} → ((a : A) → P a → Q a) → (xs : List A) → All P xs → All Q xs
  All-map f [] h = tt
  All-map f (x ∷ xs) h = (f x h.0, All-map f xs h.1)

-- A row of a table under its ID.
abbrev pub Within : Str × MemoryRow → Table MemoryRow → Type 0
Within r [] = ⊥
Within r (x ∷ t) = (r ≡ x) ⊎ Within r t

abbrev pub Chosen : (MemoryRow → Bool) → Table MemoryRow → Str × MemoryRow → Type 0
Chosen p t r = Within r t × (p r.1 ≡ true)

pub All-rows_where :
    (p : MemoryRow → Bool) (t : Table MemoryRow) → All (Chosen p t) (rows_where p t)
unfolding rows_where
All-rows_where p [] = tt
All-rows_where p ((id, row) ∷ t) =
    let later : All (Chosen p ((id, row) ∷ t)) (rows_where p t) =
      All-map (Chosen p t) (λ r h. (inr h.0, h.1)) (rows_where p t) (All-rows_where p t) in
    if-rule (All (Chosen p ((id, row) ∷ t))) (p row) (λ yes'. ((inl refl, yes'), later))
      (λ _. later)

-- A memory as a row of the tables with the property is read.
abbrev pub FromRow : (MemoryRow → Bool) → Table MemoryRow → Memory → Type 0
FromRow p t m =
    (id : Str) × (row : MemoryRow) × (m ≡ scan_memory id row) × Within (id, row) t × (p row ≡ true)

pub All-scanned :
    (p : MemoryRow → Bool) (t : Table MemoryRow) (rows : List (Str × MemoryRow))
    → All (Chosen p t) rows
    → All (FromRow p t) (map scan_row rows)
All-scanned p t [] h = tt
All-scanned p t ((id, row) ∷ rows) h = ((id, row, refl, h.0.0, h.0.1), All-scanned p t rows h.1)
