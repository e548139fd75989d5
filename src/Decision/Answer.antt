-- ===== src/Decision/Answer.antt =====
-- What a response of the decision service says, once internal/decision/client.go has taken it.
use text.Mathlib.Text.{◌==◌ as text_eq}
use kasane_mcp.Prelude.{
  ℕ, ◌≡◌, refl, Bool, true, false, List, [], ◌∷◌, Option, none, some, str_eq_iff, arith, Bool-cases,
  inl, inr, length, ok, ok-injective, err, unavailable, subst, ap,
}
use kasane_mcp.Decision.{
  read_response, read_reply, public_result, Rule, Request, Decision, Response, State, Reply,
  bad_head, good_rules, good_decision, good_decisions, bad_response, valid_response, relevance,
  relevance_call,
}

-- The decisions answer the rules one by one, under their IDs, and every required rule is included.
abbrev pub Answers : List Rule → List Decision → Type 0
Answers [] [] = Unit
Answers [] (d ∷ ds) = ⊥
Answers (r ∷ rs) [] = ⊥
Answers (r ∷ rs) (d ∷ ds) =
    (d.rule_id ≡ r.id) × (r.required ≡ true → d.include ≡ true) × Answers rs ds

good_decision-answers :
    (b : Bool) (r : Rule) (d : Decision)
    → good_decision b r d ≡ true
    → (d.rule_id ≡ r.id) × (r.required ≡ true → d.include ≡ true)
unfolding good_decision
good_decision-answers b r d h = ground (arith, str_eq_iff d.rule_id r.id)

good_decisions-Answers :
    (b : Bool) (rs : List Rule) (ds : List Decision)
    → length ds ≡ length rs
    → good_decisions b rs ds ≡ true
    → Answers rs ds
unfolding good_decisions
good_decisions-Answers b [] [] len h = tt
good_decisions-Answers b [] (d ∷ ds) len h = cc
good_decisions-Answers b (r ∷ rs) [] len h = ground arith
good_decisions-Answers b (r ∷ rs) (d ∷ ds) len h =
    let first = good_decision-answers b r d (ground arith) in
    (first.0, first.1, good_decisions-Answers b rs ds (omega arith) (ground arith))

pub valid_response-Answers :
    (out : Response) (in' : Request)
    → valid_response out in' ≡ true
    → Answers in'.rules out.decisions
unfolding valid_response bad_response
valid_response-Answers out in' h =
    good_decisions-Answers (text_eq out.mode "baseline") in'.rules out.decisions (ground arith)
      (ground arith)

read_response-Answers :
    (o : Option Response) (in' : Request) (out : Response)
    → read_response o in' ≡ (some out, State.ready)
    → Answers in'.rules out.decisions
unfolding read_response
read_response-Answers none in' out h = cc
read_response-Answers (some r) in' out h = elim (Bool-cases (valid_response r in')) [
  | inl good ↦
      let same : r ≡ out = ground arith in
      subst (λ (r : Response). Answers in'.rules r.decisions) same
        (valid_response-Answers r in' good)
  | inr bad ↦ absurd (ground arith)
]

read_reply-Answers :
    (reply : Reply) (in' : Request) (out : Response)
    → read_reply reply in' ≡ (some out, State.ready)
    → Answers in'.rules out.decisions
unfolding read_reply
read_reply-Answers Reply.no_reply in' out h = cc
read_reply-Answers (Reply.status code size o) in' out h =
    read_response-Answers o in' out (ground arith)

relevance-Answers :
    (body_fits : Request → Bool) (send : Option (Request → Reply)) (in' : Request) (out : Response)
    → relevance body_fits send in' ≡ (some out, State.ready)
    → Answers in'.rules out.decisions
unfolding relevance
relevance-Answers body_fits none in' out h = cc
relevance-Answers body_fits (some send) in' out h =
    read_reply-Answers (send in') in' out (ground arith)

public_result-ok :
    (r : Option Response × State) (out : Response)
    → public_result r ≡ ok out
    → r ≡ (some out, State.ready)
unfolding public_result
public_result-ok (some o, State.ready) out h =
    ap (λ (o : Response). (some o, State.ready)) (ok-injective h)
public_result-ok (none, State.ready) out h = cc
public_result-ok (none, State.invalid_request) out h = cc
public_result-ok (none, State.unavailable_state) out h = cc
public_result-ok (none, State.unauthorized) out h = cc
public_result-ok (none, State.invalid_response) out h = cc
public_result-ok (some o, State.invalid_request) out h = cc
public_result-ok (some o, State.unavailable_state) out h = cc
public_result-ok (some o, State.unauthorized) out h = cc
public_result-ok (some o, State.invalid_response) out h = cc

-- Whatever the service sends: a response that `Client.Relevance` returns has one decision for each
-- rule of the request, in the order of the rules and under the rule's ID, and the decision of a
-- required rule includes it.
pub relevance_call-Answers :
    (body_fits : Request → Bool) (send : Option (Request → Reply)) (in' : Request) (out : Response)
    → relevance_call body_fits send in' ≡ ok out
    → Answers in'.rules out.decisions
unfolding relevance_call
relevance_call-Answers body_fits send in' out h =
    relevance-Answers body_fits send in' out (public_result-ok (relevance body_fits send in') out h)

-- A client that is not configured, and a service that cannot be reached or that rejects the token,
-- give the error `unavailable` for a request that passes the checks, and no response.
pub relevance_call-unavailable :
    (body_fits : Request → Bool) (send : Request → Reply) (in' : Request)
    → bad_head in' ≡ false
    → good_rules [] in'.rules ≡ true
    → body_fits in' ≡ true
    → (relevance_call body_fits none in' ≡ err unavailable)
      × (send in' ≡ Reply.no_reply → relevance_call body_fits (some send) in' ≡ err unavailable)
      × ((size : Option ℕ) (o : Option Response)
          → send in' ≡ Reply.status 401 size o
          → relevance_call body_fits (some send) in' ≡ err unavailable)
unfolding relevance_call relevance public_result read_reply
relevance_call-unavailable body_fits send in' head rules fits =
    (refl, λ e. rw (head, rules, fits, e) refl, λ size o e. rw (head, rules, fits, e) refl)
