-- ===== src/Accounts/Every.antt =====
-- Rows that all satisfy a condition, and counts of rows that a change only raises.
use kasane_mcp.Prelude.{
  ℕ, suc, ◌≤◌, ◌≡◌, refl, subst, Bool, true, false, [], ◌∷◌, none, some, Str, str_eq, arith,
  if-rule, Bool-cases, inl, inr, ltb, length,
}
use kasane_mcp.Table.{Table, lookup, modify, modify_where, remove, count, find_row}
use kasane_mcp.Accounts.Schema.{Session, fresh_sessions}

module _ {V : Type 0} where
  abbrev pub Every : (V → Type 0) → Table V → Type 0
  Every P [] = Unit {0}
  Every P ((k, v) ∷ t) = P v × Every P t

  pub Every-weaken :
      {P Q : V → Type 0} → ((v : V) → P v → Q v) → (t : Table V) → Every P t → Every Q t
  Every-weaken h [] e = tt
  Every-weaken h ((k, v) ∷ t) e = (h v e.0, Every-weaken h t e.1)

module _ {V : Type 0} (P : V → Type 0) where
  pub Every-modify :
      (k : Str) (f : V → V)
      → ((v : V) → P v → P (f v))
      → (t : Table V) → Every P t
      → Every P (modify k f t)
  unfolding modify
  Every-modify k f h [] e = tt
  Every-modify k f h ((j, v) ∷ t) e =
      if-rule (Every P) (str_eq j k) (λ _. (h v e.0, e.1)) (λ _. (e.0, Every-modify k f h t e.1))

  pub Every-modify_where :
      (p : V → Bool) (f : V → V)
      → ((v : V) → P v → P (f v))
      → (t : Table V) → Every P t
      → Every P (modify_where p f t)
  unfolding modify_where
  Every-modify_where p f h [] e = tt
  Every-modify_where p f h ((j, v) ∷ t) e =
      (if-rule P (p v) (λ _. h v e.0) (λ _. e.0), Every-modify_where p f h t e.1)

  pub Every-remove : (k : Str) (t : Table V) → Every P t → Every P (remove k t)
  unfolding remove
  Every-remove k [] e = tt
  Every-remove k ((j, v) ∷ t) e =
      if-rule (Every P) (str_eq j k) (λ _. Every-remove k t e.1) (λ _. (e.0, Every-remove k t e.1))

  pub Every-lookup : (k : Str) (t : Table V) (v : V) → Every P t → lookup k t ≡ some v → P v
  unfolding lookup
  Every-lookup k [] w e h = cc
  Every-lookup k ((j, v) ∷ t) w e h = elim (Bool-cases (str_eq j k)) [
    | inl same ↦ subst P (ground arith) e.0
    | inr other ↦ Every-lookup k t w e.1 (ground arith)
  ]

module _ {V : Type 0} where
  -- Rows that keep counting keep the count.
  pub count-modify_where-ge :
      (p q : V → Bool) (f : V → V)
      → ((v : V) → p v ≡ true → p (f v) ≡ true)
      → (t : Table V) → count p t ≤ count p (modify_where q f t)
  unfolding count modify_where
  count-modify_where-ge p q f h [] = omega arith
  count-modify_where-ge p q f h ((j, v) ∷ t) = ground (arith, h v, count-modify_where-ge p q f h t)

  pub count-modify-ge :
      (p : V → Bool) (k : Str) (f : V → V)
      → ((v : V) → p v ≡ true → p (f v) ≡ true)
      → (t : Table V) → count p t ≤ count p (modify k f t)
  unfolding count modify
  count-modify-ge p k f h [] = omega arith
  count-modify-ge p k f h ((j, v) ∷ t) = ground (arith, h v, count-modify-ge p k f h t)

  -- A row that did not count and counts from now on.
  pub count-modify_where-lt :
      (p q o : V → Bool) (f : V → V)
      → ((v : V) → p v ≡ true → p (f v) ≡ true)
      → (t : Table V) (k : Str) (v : V) → find_row o t ≡ some (k, v)
      → q v ≡ true
      → p v ≡ false
      → p (f v) ≡ true
      → suc (count p t) ≤ count p (modify_where q f t)
  unfolding count modify_where find_row
  count-modify_where-lt p q o f h [] k v found marked before after = cc
  count-modify_where-lt p q o f h ((j, w) ∷ t) k v found marked before after =
      elim (Bool-cases (o w)) [
        | inl yes' ↦
            let same : w ≡ v = ground arith in ground (arith, count-modify_where-ge p q f h t)
        | inr no' ↦
            ground
              (arith, h w, count-modify_where-lt p q o f h t k v (ground arith) marked before after)
      ]

  pub count-absent : (p : V → Bool) (t : Table V) → find_row p t ≡ none → count p t ≡ 0
  unfolding count find_row
  count-absent p [] h = refl
  count-absent p ((j, v) ∷ t) h = ground (arith, count-absent p t)

  pub count-le-length : (p : V → Bool) (t : Table V) → count p t ≤ length t
  unfolding count
  count-le-length p [] = omega arith
  count-le-length p ((j, v) ∷ t) = ground (arith, count-le-length p t)

module _ (P : Session → Type 0) where
  pub Every-fresh : (now : ℕ) (t : Table Session) → Every P t → Every P (fresh_sessions now t)
  unfolding fresh_sessions
  Every-fresh now [] e = tt
  Every-fresh now ((j, s) ∷ t) e =
      if-rule (Every P) (ltb s.expires_at now) (λ _. Every-fresh now t e.1)
        (λ _. (e.0, Every-fresh now t e.1))
