-- ===== src/Server/Limiter/Window.antt =====
-- Sequences of calls of the login limiter (internal/server/security.go).
use kasane_mcp.Prelude.{
  ℕ, ◌+◌, ◌≤◌, ◌<◌, ◌≡◌, refl, sym, ◌∙◌, subst, Bool, true, false, List, [], ◌∷◌, Option, some,
  Option-cases, Bool-cases, inl, inr, Str, str_eq, str_eq_iff, leb, arith, if◌then◌else◌, length,
}
use kasane_mcp.Table.{Table, lookup, modify}
use kasane_mcp.Table.Laws.{lookup-modify}
use kasane_mcp.Server.Limiter.{
  Throttle, window, sweep, make_room, put, allow, allowed, entries_after,
}

length-sweep : (now : ℕ) (l : Table Throttle) → length (sweep now l) ≤ length l
unfolding sweep
length-sweep now [] = omega arith
length-sweep now ((k, v) ∷ l) = ground (arith, length-sweep now l)

length-make_room : (now : ℕ) (l : Table Throttle) → length (make_room now l) ≤ length l
unfolding make_room
length-make_room now l = ground (arith, length-sweep now l)

length-modify :
    (k : Str) (f : Throttle → Throttle) (l : Table Throttle) → length (modify k f l) ≡ length l
unfolding modify
length-modify k f [] = refl
length-modify k f ((j, v) ∷ l) = ground (arith, length-modify k f l)

length-put : (k : Str) (v : Throttle) (l : Table Throttle) → length (put k v l) ≤ length l + 1
unfolding put
length-put k v l = ground (arith, length-modify k (λ _. v) l)

allow-size :
    (key : Str) (now : ℕ) (l : Table Throttle)
    → length l ≤ 10000
    → length (allow key now l).1 ≤ 10000
unfolding allow
allow-size key now l h = ground (
  arith,
  length-make_room now l,
  length-put key
      (record (window now (lookup key l)) { count = (window now (lookup key l)).count + 1 })
      (make_room now l),
)

-- Whatever is called, a map of at most 10000 entries stays one.
pub entries_after-size :
    (calls : List (Str × ℕ)) (l : Table Throttle)
    → length l ≤ 10000
    → length (entries_after calls l) ≤ 10000
unfolding entries_after
entries_after-size [] l h = h
entries_after-size ((k, now) ∷ calls) l h =
    entries_after-size calls (allow k now l).1 (allow-size k now l h)

lookup-sweep :
    (k : Str) (now : ℕ) (l : Table Throttle) (v : Throttle)
    → lookup k l ≡ some v
    → now < v.expires
    → lookup k (sweep now l) ≡ some v
unfolding lookup sweep
lookup-sweep k now [] v h lt = cc
lookup-sweep k now ((j, w) ∷ l) v h lt = ground (arith, str_eq_iff j k, lookup-sweep k now l v)

lookup-make_room :
    (k : Str) (now : ℕ) (l : Table Throttle) (v : Throttle)
    → lookup k l ≡ some v
    → now < v.expires
    → lookup k (make_room now l) ≡ some v
unfolding make_room
lookup-make_room k now l v h lt = ground (arith, lookup-sweep k now l v)

lookup-put :
    (k j : Str) (v : Throttle) (l : Table Throttle)
    → lookup j (put k v l) ≡ (if str_eq k j then some v else lookup j l)
unfolding put lookup
lookup-put k j v l = elim (Option-cases (lookup k l)) [
  | inl none' ↦ rw none' refl
  | inr (w, there) ↦ rw there (
      rw (lookup-modify k j (λ _. v) l) (elim (Bool-cases (str_eq k j)) [
        | inl e ↦
            rw e (rw (subst (λ (x : Str). lookup x l ≡ some w) ((str_eq_iff k j).0 e) there) refl)
        | inr e ↦ rw e refl
      ]))
]

-- A call for another key, and one for this key inside its window.
allow-other :
    (k j : Str) (now : ℕ) (l : Table Throttle) (v : Throttle)
    → lookup j l ≡ some v
    → now < v.expires
    → str_eq k j ≡ false
    → lookup j (allow k now l).1 ≡ some v
unfolding allow
allow-other k j now l v h lt ne = ground (
  arith,
  lookup-make_room j now l v,
  lookup-put k j (record (window now (lookup k l)) { count = (window now (lookup k l)).count + 1 })
      (make_room now l),
)

window-open : (now : ℕ) (v : Throttle) → now < v.expires → window now (some v) ≡ v
unfolding window
window-open now v lt = ground arith

-- The entry behind a call inside the window: counted if the call was allowed, and then below 10.
pub record Counted (v : Throttle) (answer : Bool) (entry : Option Throttle) : Type 0 where
  pub entry_eq : entry ≡ some (if answer then record v { count = v.count + 1 } else v)
  pub below : answer ≡ true → v.count < 10

allow-same :
    (j : Str) (now : ℕ) (l : Table Throttle) (v : Throttle)
    → lookup j l ≡ some v
    → now < v.expires
    → Counted v (allow j now l).0 (lookup j (allow j now l).1)
unfolding allow
allow-same j now l v h lt =
    let w : window now (lookup j l) ≡ v = rw h (window-open now v lt) in
    rw w (elim (Bool-cases (leb 10 v.count)) [
      | inl full ↦ rw full (record { entry_eq = h; below = λ e. cc })
      | inr room ↦ rw room (elim (Bool-cases (leb 10000 (length (make_room now l)))) [
        | inl full ↦
            rw full (record { entry_eq = lookup-make_room j now l v h lt; below = λ e. cc })
        | inr free ↦ rw free (record {
          entry_eq = ground (
            arith,
            lookup-put j j (record v { count = v.count + 1 }) (make_room now l),
            str_eq_iff j j,
          );
          below = λ e. ground arith;
        })
      ])
    ])

-- The calls before a time.
abbrev pub AllBefore : ℕ → List (Str × ℕ) → Type 0
AllBefore t [] = Unit
AllBefore t ((k, now) ∷ calls) = (now < t) × AllBefore t calls

-- From an entry that counts at most 10, the calls before its window ends, for this key and for any
-- others, allow the key at most as often as its count is below 10.
pub allowed-le :
    (key : Str) (calls : List (Str × ℕ)) (l : Table Throttle) (v : Throttle)
    → lookup key l ≡ some v
    → v.count ≤ 10
    → AllBefore v.expires calls
    → allowed key calls l + v.count ≤ 10
unfolding allowed
allowed-le key [] l v h le before = omega arith
allowed-le key ((k, now) ∷ calls) l v h le before = elim (Bool-cases (str_eq k key)) [
  | inl e ↦
      let same : k ≡ key = (str_eq_iff k key).0 e in
      let c : Counted v (allow k now l).0 (lookup key (allow k now l).1) =
        subst (λ (x : Str). Counted v (allow k now l).0 (lookup x (allow k now l).1)) same
          (allow-same k now l v (subst (λ (x : Str). lookup x l ≡ some v) (sym same) h) before.0) in
      elim (Bool-cases (allow k now l).0) [
        | inl allowed' ↦
            let lt = c.below allowed' in
            rw e (
              rw allowed' (
                let ih =
                  allowed-le key calls (allow k now l).1 (record v { count = v.count + 1 })
                    (c.entry_eq ∙ rw allowed' refl) (omega arith) before.1 in
                omega arith))
        | inr refused ↦ rw e (
            rw refused
              (allowed-le key calls (allow k now l).1 v (c.entry_eq ∙ rw refused refl) le before.1))
      ]
  | inr e ↦ rw e (
      allowed-le key calls (allow k now l).1 v (allow-other k key now l v h before.0 e) le before.1)
]
