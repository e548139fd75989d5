-- ===== src/Table/Laws.antt =====
-- Laws of the tables: what each change does to a lookup and to a count.
use mathlib.Core.Option
use kasane_mcp.Prelude.{
  ◌+◌, ◌≤◌, ◌≡◌, refl, subst, Bool, true, false, [], ◌∷◌, none, some, Str, str_eq, str_eq_iff,
  arith, Bool-cases, inl, inr, if◌then◌else◌,
}
use kasane_mcp.Table.{Table, bit, lookup, modify, remove, count, find_row, modify_where}

module _ {ℓ} {V : Type ℓ} where
  pub lookup-modify :
      (k j : Str) (f : V → V) (t : Table V)
      → lookup j (modify k f t) ≡ (if str_eq k j then Option.map f (lookup j t) else lookup j t)
  unfolding lookup modify
  lookup-modify k j f [] = ground arith
  lookup-modify k j f ((i, v) ∷ t) =
      ground (arith, str_eq_iff k j, str_eq_iff i k, str_eq_iff i j, lookup-modify k j f t)

  pub lookup-remove :
      (k j : Str) (t : Table V) → lookup j (remove k t) ≡ (if str_eq k j then none else lookup j t)
  unfolding lookup remove
  lookup-remove k j [] = ground arith
  lookup-remove k j ((i, v) ∷ t) =
      ground (arith, str_eq_iff k j, str_eq_iff i k, str_eq_iff i j, lookup-remove k j t)

  pub lookup-modify_where :
      (p : V → Bool) (f : V → V) (j : Str) (t : Table V)
      → lookup j (modify_where p f t) ≡ Option.map (λ v. if p v then f v else v) (lookup j t)
  unfolding lookup modify_where
  lookup-modify_where p f j [] = refl
  lookup-modify_where p f j ((i, v) ∷ t) = ground (arith, lookup-modify_where p f j t)

  -- A change of one row moves a count by what the row counted before and counts after.
  pub count-modify :
      (p : V → Bool) (k : Str) (f : V → V) (t : Table V) (v : V)
      → lookup k t ≡ some v
      → count p (modify k f t) + bit (p v) ≡ count p t + bit (p (f v))
  unfolding lookup modify count
  count-modify p k f [] v h = cc
  count-modify p k f ((i, w) ∷ t) v h = ground (arith, count-modify p k f t v)

  pub find_row-some :
      (p : V → Bool) (t : Table V) (k : Str) (v : V) → find_row p t ≡ some (k, v) → p v ≡ true
  unfolding find_row
  find_row-some p [] k v h = cc
  find_row-some p ((i, w) ∷ t) k v h = ground (arith, find_row-some p t k v)

  pub find_row-none :
      (p : V → Bool) (t : Table V) (k : Str) (v : V)
      → find_row p t ≡ none
      → lookup k t ≡ some v
      → p v ≡ false
  unfolding find_row lookup
  find_row-none p [] k v h l = cc
  find_row-none p ((i, w) ∷ t) k v h l = ground (arith, find_row-none p t k v)

  -- Rows that a change does not count before and does not count after leave a count as it is.
  pub count-modify_where-le :
      (p q : V → Bool) (f : V → V) (t : Table V)
      → ((v : V) → bit (p (if q v then f v else v)) ≤ bit (p v))
      → count p (modify_where q f t) ≤ count p t
  unfolding count modify_where
  count-modify_where-le p q f [] h = omega arith
  count-modify_where-le p q f ((i, v) ∷ t) h = omega (arith, h v, count-modify_where-le p q f t h)

  -- The same laws at a row that is there.
  pub lookup-at :
      (k j : Str) (t : Table V) (v : V)
      → lookup k t ≡ some v
      → lookup j t ≡ (if str_eq k j then some v else lookup j t)
  lookup-at k j t v h = elim (Bool-cases (str_eq k j)) [
    | inl e ↦ rw e (subst (λ (x : Str). lookup x t ≡ some v) ((str_eq_iff k j).0 e) h)
    | inr e ↦ rw e
  ]

  pub lookup-modify_at :
      (k j : Str) (f : V → V) (t : Table V) (v : V)
      → lookup k t ≡ some v
      → lookup j (modify k f t) ≡ (if str_eq k j then some (f v) else lookup j t)
  lookup-modify_at k j f t v h = rw (lookup-modify k j f t) (elim (Bool-cases (str_eq k j)) [
    | inl e ↦ rw e (rw (subst (λ (x : Str). lookup x t ≡ some v) ((str_eq_iff k j).0 e) h))
    | inr e ↦ rw e
  ])
