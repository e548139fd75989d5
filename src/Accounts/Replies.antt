-- ===== src/Accounts/Replies.antt =====
-- What the answer of a handler says of the outcome of its store call.
use kasane_mcp.Prelude.{ℕ, ◌≡◌, refl, Result, ok, err}
use kasane_mcp.Tx.{Faults, query, run}
use kasane_mcp.Tx.Rules.{Sat-statement, run-ok}
use kasane_mcp.Server.Http.{Reply, reply}

module _ {A S : Type 0} where
  pub reply-state : (status : ℕ) (r : Result A × S) → (reply status r).1 ≡ r.1
  unfolding reply
  reply-state status (ok a, s) = refl
  reply-state status (err e, s) = refl

  pub reply-answered :
      (status status' : ℕ) (a : A) (r : Result A × S)
      → (reply status r).0 ≡ Reply.answered status' a
      → r.0 ≡ ok a
  unfolding reply
  reply-answered status status' a (ok b, s) h = cc
  reply-answered status status' a (err e, s) h = cc

  -- A SELECT that returned read the tables as they were.
  pub run-query :
      (q : S → A) (s : S) (fs : Faults) (a : A) → (run (query q) s fs).0 ≡ ok a → a ≡ q s
  unfolding query
  run-query q s fs a h =
      run-ok (λ a _. a ≡ q s) (query q) s fs a
        (Sat-statement (λ (s : S). ok (q s, s)) s (λ b s' e. cc)) h
