-- ===== src/Store/Growth.antt =====
-- How the memories of internal/store/store.go change with time: no row is deleted, and no revision
-- counts down.
pub mod Writes
use kasane_mcp.Prelude.{
  ℕ, ◌≤◌, ◌≡◌, refl, subst, List, [], ◌∷◌, none, some, Str, str_eq, str_eq_iff, arith, Bool-cases,
  inl, inr,
}
use kasane_mcp.Table.{Table, lookup, modify}
use kasane_mcp.Table.Laws.{lookup-modify}
use kasane_mcp.Store.Schema.{MemoryRow}

-- The table has a row under `id`, with the revision `rev` or a later one.
pub record Still (t : Table MemoryRow) (id : Str) (rev : ℕ) : Type 0 where
  pub row : MemoryRow
  pub found : lookup id t ≡ some row
  pub grown : rev ≤ row.revision

-- The second table is the first one, or what writes have made of it.
abbrev pub Later : Table MemoryRow → Table MemoryRow → Type 0
Later t t' = (id : Str) (row : MemoryRow) → lookup id t ≡ some row → Still t' id row.revision

pub Later-refl : (t : Table MemoryRow) → Later t t
Later-refl t id row h = record { row = row; found = h; grown = omega arith }

pub Still-Later :
    (t t' : Table MemoryRow) {id : Str} {rev : ℕ} → Later t t' → Still t id rev → Still t' id rev
Still-Later t t' {id} later s =
    let s' = later id s.row s.found in
    let a = s.grown in
    let b = s'.grown in record { row = s'.row; found = s'.found; grown = omega arith }

pub Later-trans : (t t' t'' : Table MemoryRow) → Later t t' → Later t' t'' → Later t t''
Later-trans t t' t'' first second id row h = Still-Later t' t'' second (first id row h)

pub Later-modify :
    (k : Str) (f : MemoryRow → MemoryRow) (t : Table MemoryRow)
    → ((row : MemoryRow) → row.revision ≤ (f row).revision)
    → Later t (modify k f t)
Later-modify k f t grows id row h = elim (Bool-cases (str_eq k id)) [
  | inl e ↦ record {
    row = f row;
    found = rw (lookup-modify k id f t, e, h) refl;
    grown = grows row;
  }
  | inr e ↦ record { row = row; found = rw (lookup-modify k id f t, e) h; grown = omega arith }
]

pub Later-insert :
    (k : Str) (v : MemoryRow) (t : Table MemoryRow) → lookup k t ≡ none → Later t ((k, v) ∷ t)
unfolding lookup
Later-insert k v t absent id row h = record {
  row = row;
  found = elim (Bool-cases (str_eq k id)) [
    | inl e ↦ absurd (
        let p : lookup id t ≡ none =
          subst (λ (x : Str). lookup x t ≡ none) ((str_eq_iff k id).0 e) absent in
        cc (p, h))
    | inr e ↦ rw e h
  ];
  grown = omega arith;
}
