-- ===== src/Prelude/Words.antt =====
-- Lists of numbers compared as Go compares strings: by value.
use Prim.Native.Nat.{ℕ}
use mathlib.Core.Path.{◌≡◌, refl}
use mathlib.Core.Logic.{◌↔◌}
use mathlib.Core.Bool.{Bool, true, false, ◌&&◌}
use mathlib.Core.List.{List, [], ◌∷◌}
use native.Mathlib.Omega.{arith}
use kasane_mcp.Prelude.Tests.{◌==◌}

-- A Go string as `for range` yields it: code points, and `0x110000 + b` for a byte `b` that is not
-- part of valid UTF-8.
abbrev pub Str : Type 0
Str = List ℕ

unfoldable pub str_eq : Str → Str → Bool
str_eq [] [] = true
str_eq [] (d ∷ t) = false
str_eq (c ∷ s) [] = false
str_eq (c ∷ s) (d ∷ t) = c == d && str_eq s t

eq_of_str_eq : (s t : Str) → str_eq s t ≡ true → s ≡ t
unfolding str_eq
eq_of_str_eq [] [] h = refl
eq_of_str_eq [] (d ∷ t) h = cc
eq_of_str_eq (c ∷ s) [] h = cc
eq_of_str_eq (c ∷ s) (d ∷ t) h = ground (arith, eq_of_str_eq s t)

pub str_eq_refl : (s : Str) → str_eq s s ≡ true
unfolding str_eq
str_eq_refl [] = refl
str_eq_refl (c ∷ s) = ground (arith, str_eq_refl s)

pub str_eq_iff : (s t : Str) → (str_eq s t ≡ true) ↔ (s ≡ t)
str_eq_iff s t = (eq_of_str_eq s t, λ e. rw e (str_eq_refl t))
