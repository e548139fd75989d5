-- ===== src/Tx.antt =====
-- Database access (`tx.QueryRow`, `tx.Exec`, `Begin`, `Commit`, `defer tx.Rollback`). A statement
-- reads and writes the tables `S`, or fails: which statements fail in transport or on the server is
-- decided by the environment, a list with one answer for each statement (`true` is a failure; a
-- statement behind its end succeeds). A failure is an error that is none of the program's own, so
-- it shows as `unavailable`.
pub mod Rules
use kasane_mcp.Prelude.{Bool, true, false, List, [], ◌∷◌, Result, ok, err, Error, unavailable}

abbrev pub Faults : Type 0
Faults = List Bool

pub record Done (S A : Type 0) : Type 0 where
  pub value : A
  pub state : S
  pub left : Faults

abbrev pub Tx : Type 0 → Type 0 → Type 0
Tx S A = S → Faults → Result (Done S A)

module _ {S A : Type 0} where
  unfoldable pub pure : A → Tx S A
  pure a s fs = ok (record { value = a; state = s; left = fs })

  unfoldable pub raise : Error → Tx S A
  raise e s fs = err e

  answer : Faults → Result (A × S) → Result (Done S A)
  answer fs (err e) = err e
  answer fs (ok (a, s)) = ok (record { value = a; state = s; left = fs })

  -- One statement: its value and the tables behind it, or the server's own error.
  unfoldable pub statement : (S → Result (A × S)) → Tx S A
  unfolding answer
  statement q s [] = answer [] (q s)
  statement q s (true ∷ fs) = err unavailable
  statement q s (false ∷ fs) = answer fs (q s)

  -- A SELECT.
  unfoldable pub query : (S → A) → Tx S A
  unfolding statement
  query q = statement (λ s. ok (q s, s))

-- An INSERT, UPDATE or DELETE.
unfoldable pub exec : {S : Type 0} → (S → S) → Tx S (Unit {0})
unfolding statement
exec g = statement (λ s. ok (tt, g s))

module _ {S A B : Type 0} where
  infixl 5 ◌>>=◌ ◌>>◌
  continue : (A → Tx S B) → Result (Done S A) → Result (Done S B)
  continue f (err e) = err e
  continue f (ok d) = f d.value d.state d.left

  -- opening this opens the statements too
  unfoldable pub ◌>>=◌ : Tx S A → (A → Tx S B) → Tx S B
  unfolding continue pure raise statement query exec
  ◌>>=◌ m f s fs = continue f (m s fs)

  abbrev pub ◌>>◌ : Tx S A → Tx S B → Tx S B
  m >> n = m >>= λ _. n

module _ {S A : Type 0} where
  -- `return v, tx.Commit(ctx)`
  committed : Tx S A → Tx S A
  unfolding exec pure
  committed body = do exec (λ s. s); a ← body; exec (λ s. s); pure a

  close : S → Result (Done S A) → Result A × S
  close s (err e) = (err e, s)
  close s (ok d) = (ok d.value, d.state)

  -- Begin, the body, and a commit if the body returns no error. Otherwise the deferred rollback
  -- leaves the tables as they were. (A commit that fails is taken as one that did not happen.)
  unfoldable pub transact : Tx S A → S → Faults → Result A × S
  unfolding committed close ◌>>=◌
  transact body s fs = close s (committed body s fs)

  -- Statements on the pool, with no transaction.
  unfoldable pub run : Tx S A → S → Faults → Result A × S
  unfolding close ◌>>=◌
  run body s fs = close s (body s fs)
