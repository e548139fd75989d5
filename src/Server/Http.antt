-- ===== src/Server/Http.antt =====
-- What a handler answers: the status of `fail` or `respond` of internal/server/app.go, and the value.
use kasane_mcp.Prelude.{ℕ, Result, ok, err, Error}

pub data Reply (A : Type 0) : Type 0 where
  failed : ℕ → Reply A
  answered : ℕ → A → Reply A

-- fail(w, status, …) by the kind of an error: `App.failure`.
abbrev pub failure_status : Error → ℕ
failure_status Error.invalid = 400
failure_status Error.conflict = 409
failure_status Error.not_found = 404
failure_status Error.forbidden = 403
failure_status Error.unavailable = 503

module _ {A S : Type 0} where
  -- The answer to the outcome of a store call, and the tables behind it.
  unfoldable pub reply : ℕ → Result A × S → Reply A × S
  reply status (ok a, s) = (Reply.answered status a, s)
  reply status (err e, s) = (Reply.failed (failure_status e), s)
