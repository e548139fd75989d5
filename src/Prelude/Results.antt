-- ===== src/Prelude/Results.antt =====
-- The error kinds that the handlers tell apart by `errors.Is` (`internal/core/types.go`,
-- `errForbidden` of `internal/server/security.go`), and results that carry one.
-- A wrapped message (`fmt.Errorf("%w: …")`) is the kind that it wraps; every error that is none of
-- these four is `unavailable`.
use mathlib.Core.Path.{◌≡◌, refl}
use mathlib.Core.Bool.{Bool, true, false}
use kasane_mcp.Prelude.Tests.{if◌then◌else◌}
use mathlib.Core.Logic.{◌⊎◌, inl, inr}

pub data Error : Type 0 where
  not_found conflict invalid forbidden unavailable : Error

pub data Result {ℓ} (A : Type ℓ) : Type ℓ where
  ok : A → Result A
  err : Error → Result A

pub ok-cases {ℓ} :
    {A : Type ℓ} (r : Result A) → ((a : A) × (r ≡ ok a)) ⊎ ((e : Error) × (r ≡ err e))
ok-cases (ok a) = inl (a, refl)
ok-cases (err e) = inr (e, refl)

-- Behind a guard that returned no error.
pub guard-ok {ℓ} :
    {A : Type ℓ} (b : Bool) (e : Error) {r : Result A} {a : A}
    → (if b then err e else r) ≡ ok a
    → (b ≡ false) × (r ≡ ok a)
guard-ok true e h = cc
guard-ok false e h = (refl, h)

pub ok-injective {ℓ} : {A : Type ℓ} {a b : A} → ok a ≡ ok b → a ≡ b
ok-injective h = cc
