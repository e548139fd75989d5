-- ===== src/Tx/Rules.antt =====
-- What holds when a chain of statements returns, whatever statements fail on the way.
use kasane_mcp.Prelude.{
  ◌≡◌, refl, sym, subst, Bool, true, false, [], ◌∷◌, Option, none, some, Result, ok, err, Error,
  if◌then◌else◌,
}
use kasane_mcp.Tx.{
  Faults, Done, Tx, pure, raise, answer, statement, query, exec, continue, ◌>>=◌, committed, close,
  transact, run,
}

module _ {S A : Type 0} where
  abbrev Holds : (A → S → Type 0) → Result (Done S A) → Type 0
  Holds Q (err e) = Unit {0}
  Holds Q (ok d) = Q d.value d.state

  -- If `m` returns a value from the tables `s`, then `Q` holds of it and of the tables behind it.
  pub record Sat (m : Tx S A) (s : S) (Q : A → S → Type 0) : Type 0 where
    pub at : (fs : Faults) → Holds Q (m s fs)

module _ {S A : Type 0} {Q : A → S → Type 0} where
  pub Sat-pure : (a : A) (s : S) → Q a s → Sat (pure a) s Q
  unfolding pure
  Sat-pure a s h = record { at = λ fs. h }

  pub Sat-raise : (e : Error) (s : S) → Sat (raise e) s Q
  unfolding raise
  Sat-raise e s = record { at = λ fs. tt }

  answer-Holds :
      (fs : Faults) (r : Result (A × S))
      → ((a : A) (s : S) → r ≡ ok (a, s) → Q a s)
      → Holds Q (answer fs r)
  unfolding answer
  answer-Holds fs (err e) h = tt
  answer-Holds fs (ok (a, s)) h = h a s refl

  pub Sat-statement :
      (q : S → Result (A × S)) (s : S)
      → ((a : A) (s' : S) → q s ≡ ok (a, s') → Q a s')
      → Sat (statement q) s Q
  unfolding statement
  Sat-statement q s h = record { at = λ fs. go fs }
    where
      go : (fs : Faults) → Holds Q (statement q s fs)
      go [] = answer-Holds [] (q s) h
      go (true ∷ fs) = tt
      go (false ∷ fs) = answer-Holds fs (q s) h

  pub Sat-if :
      (b : Bool) {m n : Tx S A} (s : S)
      → (b ≡ true → Sat m s Q)
      → (b ≡ false → Sat n s Q)
      → Sat (if b then m else n) s Q
  Sat-if true s hm hn = hm refl
  Sat-if false s hm hn = hn refl

  -- A query that may have found nothing.
  pub Sat-option :
      {B : Type 0} (o : Option B) {m : Tx S A} {f : B → Tx S A} (s : S)
      → (o ≡ none → Sat m s Q)
      → ((b : B) → o ≡ some b → Sat (f b) s Q)
      → Sat (elim o [ none ↦ m | some b ↦ f b ]) s Q
  Sat-option none s hn hs = hn refl
  Sat-option (some b) s hn hs = hs b refl

module _ {S A B : Type 0} {R : A → S → Type 0} {Q : B → S → Type 0} where
  pub Sat-bind :
      {m : Tx S A} {f : A → Tx S B} {s : S}
      → Sat m s R
      → ((a : A) (s' : S) → R a s' → Sat (f a) s' Q)
      → Sat (m >>= f) s Q
  unfolding ◌>>=◌
  Sat-bind {m} {f} {s} h k = record { at = λ fs. go (m s fs) (h.at fs) }
    where
      go : (r : Result (Done S A)) → Holds R r → Holds Q (continue f r)
      go (err e) hr = tt
      go (ok d) hr = (k d.value d.state hr).at d.left

module _ {S A : Type 0} {Q R : A → S → Type 0} where
  weaken-Holds : ((a : A) (s : S) → Q a s → R a s) → (r : Result (Done S A)) → Holds Q r → Holds R r
  weaken-Holds k (err e) h = tt
  weaken-Holds k (ok d) h = k d.value d.state h

  pub Sat-weaken :
      {m : Tx S A} {s : S} → ((a : A) (s' : S) → Q a s' → R a s') → Sat m s Q → Sat m s R
  Sat-weaken {m} {s} k h = record { at = λ fs. weaken-Holds k (m s fs) (h.at fs) }

-- A part that leaves the tables as they were.
abbrev pub Reads : {S A : Type 0} → Tx S A → S → (A → Type 0) → Type 0
Reads {A = A} m s R = Sat m s (λ (a : A) s'. (s' ≡ s) × R a)

module _ {S A B : Type 0} {R : A → Type 0} {Q : B → S → Type 0} where
  pub Sat-reads :
      {m : Tx S A} (f : A → Tx S B) {s : S}
      → Reads m s R
      → ((a : A) → R a → Sat (f a) s Q)
      → Sat (m >>= f) s Q
  Sat-reads f h k = Sat-bind h (λ a s' r. subst (λ s. Sat (f a) s Q) (sym r.0) (k a r.1))

module _ {S A B : Type 0} {Q : B → S → Type 0} where
  pub Sat-step :
      (q : S → Result (A × S)) (f : A → Tx S B) (s : S)
      → ((a : A) (s' : S) → q s ≡ ok (a, s') → Sat (f a) s' Q)
      → Sat (statement q >>= f) s Q
  Sat-step q f s k = Sat-bind (Sat-statement q s (λ a s' e. e)) k

  pub Sat-query : (q : S → A) (f : A → Tx S B) (s : S) → Sat (f (q s)) s Q → Sat (query q >>= f) s Q
  unfolding query ◌>>=◌
  Sat-query q f s h = record { at = λ fs. go fs }
    where
      go : (fs : Faults) → Holds Q ((query q >>= f) s fs)
      go [] = h.at []
      go (true ∷ fs) = tt
      go (false ∷ fs) = h.at fs

module _ {S B : Type 0} {Q : B → S → Type 0} where
  pub Sat-exec :
      (g : S → S) (f : Unit {0} → Tx S B) (s : S) → Sat (f tt) (g s) Q → Sat (exec g >>= f) s Q
  unfolding exec ◌>>=◌
  Sat-exec g f s h = record { at = λ fs. go fs }
    where
      go : (fs : Faults) → Holds Q ((exec g >>= f) s fs)
      go [] = h.at []
      go (true ∷ fs) = tt
      go (false ∷ fs) = h.at fs

module _ {S : Type 0} {Q : Unit {0} → S → Type 0} where
  pub Sat-exec_last : (g : S → S) (s : S) → Q tt (g s) → Sat (exec g) s Q
  unfolding exec
  Sat-exec_last g s h = record { at = λ fs. go fs }
    where
      go : (fs : Faults) → Holds Q (exec g s fs)
      go [] = h
      go (true ∷ fs) = tt
      go (false ∷ fs) = h

module _ {S A : Type 0} (P : Result A → S → Type 0) where
  close-rule :
      (s : S) (r : Result (Done S A))
      → ((e : Error) → P (err e) s)
      → Holds (λ a s'. P (ok a) s') r
      → P (close s r).0 (close s r).1
  unfolding close
  close-rule s (err e) he h = he e
  close-rule s (ok d) he h = h

  committed-Sat :
      (body : Tx S A) (s : S)
      → Sat body s (λ a s'. P (ok a) s')
      → Sat (committed body) s (λ a s'. P (ok a) s')
  unfolding committed
  committed-Sat body s h =
      Sat-exec (λ s. s) _ s (Sat-bind h (λ a s' r. Sat-exec (λ s. s) _ s' (Sat-pure a s' r)))

  -- A transaction returns an error and leaves the tables as they were, or its body returned.
  pub transact-rule :
      (body : Tx S A) (s : S) (fs : Faults)
      → ((e : Error) → P (err e) s)
      → Sat body s (λ a s'. P (ok a) s')
      → P (transact body s fs).0 (transact body s fs).1
  unfolding transact
  transact-rule body s fs he h =
      close-rule s (committed body s fs) he ((committed-Sat body s h).at fs)

  pub run-rule :
      (body : Tx S A) (s : S) (fs : Faults)
      → ((e : Error) → P (err e) s)
      → Sat body s (λ a s'. P (ok a) s')
      → P (run body s fs).0 (run body s fs).1
  unfolding run
  run-rule body s fs he h = close-rule s (body s fs) he (h.at fs)

-- What a chain that returned a value has established.
abbrev pub IfOk : {S A : Type 0} → (A → S → Type 0) → Result A → S → Type 0
IfOk Q (err e) s = Unit {0}
IfOk Q (ok a) s = Q a s

module _ {S A : Type 0} (Q : A → S → Type 0) where
  pub transact-ok :
      (body : Tx S A) (s : S) (fs : Faults) (a : A)
      → Sat body s Q
      → (transact body s fs).0 ≡ ok a
      → Q a (transact body s fs).1
  transact-ok body s fs a h e =
      subst (λ (r : Result A). IfOk Q r (transact body s fs).1) e
        (transact-rule (IfOk Q) body s fs (λ _. tt) h)

  pub run-ok :
      (body : Tx S A) (s : S) (fs : Faults) (a : A)
      → Sat body s Q
      → (run body s fs).0 ≡ ok a
      → Q a (run body s fs).1
  run-ok body s fs a h e =
      subst (λ (r : Result A). IfOk Q r (run body s fs).1) e
        (run-rule (IfOk Q) body s fs (λ _. tt) h)
