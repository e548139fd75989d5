-- ===== src/Decision.antt =====
-- The client of the decision service: internal/decision/client.go, less its HTTP calls and the JSON
-- decoding.
pub mod Answer
use text.Mathlib.Text.{◌==◌ as text_eq}
use kasane_mcp.Prelude.{
  ℕ, ◌+◌, ◌*◌, Bool, true, false, ◌&&◌, ◌||◌, not, List, [], ◌∷◌, Option, none, some, String, Str,
  str_eq, ltb, leb, ◌==◌, is_some, if◌then◌else◌, length, Result, ok, err, invalid, unavailable,
}
use kasane_mcp.GoText.{len, trim_space}
use kasane_mcp.Core.Validation.{is_empty, member}

pub record Rule : Type 0 where
  pub id : Str
  pub text : Str
  pub required : Bool
  pub paths : List Str

pub record Request : Type 0 where
  pub task : Str
  pub paths : List Str
  pub context : Option Str
  pub rules : List Rule

-- What a probability is found to be: a float64 in [0, 1], or one that is not (or NaN).
pub data Probability : Type 0 where
  within outside : Probability

pub record Decision : Type 0 where
  pub rule_id : Str
  pub include : Bool
  pub reason : String
  pub probability : Option Probability

pub record Response : Type 0 where
  pub decision_id : Str
  pub mode : String
  pub model_version : Option Str
  pub calibration_version : Option Str
  pub calibrated : Bool
  pub coverage : String
  pub decisions : List Decision

-- in.Context != nil && len(*in.Context) > 65536
abbrev long_context : Option Str → Bool
long_context none = false
long_context (some c) = ltb 65536 (len c)

unfoldable pub bad_head : Request → Bool
bad_head in' =
    is_empty (trim_space in'.task)
    || ltb 16384 (len in'.task)
    || ltb 64 (length in'.paths)
    || (length in'.rules == 0)
    || ltb 64 (length in'.rules)
    || long_context in'.context

unfoldable pub bad_rule : List Str → Rule → Bool
bad_rule seen r =
    member r.id seen
    || is_empty r.id
    || ltb 256 (len r.id)
    || is_empty (trim_space r.text)
    || ltb 8192 (len r.text)
    || ltb 64 (length r.paths)

-- The loop over the rules, with the IDs seen.
unfoldable pub good_rules : List Str → List Rule → Bool
good_rules seen [] = true
good_rules seen (r ∷ rs) = not (bad_rule seen r) && good_rules (r.id ∷ seen) rs

-- The reason against `Include`: `switch d.Reason`.
unfoldable pub good_reason : Decision → Bool
good_reason d =
    if text_eq d.reason "required" || text_eq d.reason "scope_match"
    then d.include
    else if text_eq d.reason "abstained"
    then not d.include
    else text_eq d.reason "model" || text_eq d.reason "keyword"

abbrev out_of_range : Option Probability → Bool
out_of_range none = false
out_of_range (some Probability.within) = false
out_of_range (some Probability.outside) = true

-- One turn of the loop over the decisions.
unfoldable pub good_decision : Bool → Rule → Decision → Bool
good_decision baseline r d =
    not (
      not (str_eq d.rule_id r.id)
      || (r.required && (not d.include || not (text_eq d.reason "required"))))
    && good_reason d
    && not (out_of_range d.probability)
    && not (baseline && (is_some d.probability || text_eq d.reason "model"))

-- The lists are of one length when the loop begins.
unfoldable pub good_decisions : Bool → List Rule → List Decision → Bool
good_decisions baseline rs [] = true
good_decisions baseline [] (d ∷ ds) = false
good_decisions baseline (r ∷ rs) (d ∷ ds) =
    good_decision baseline r d && good_decisions baseline rs ds

unfoldable pub bad_response : Response → Request → Bool
bad_response out in' =
    is_empty out.decision_id
    || (not (text_eq out.mode "baseline") && not (text_eq out.mode "model"))
    || (not (text_eq out.coverage "complete") && not (text_eq out.coverage "partial"))
    || not (length out.decisions == length in'.rules)

unfoldable pub bad_baseline : Response → Bool
bad_baseline out =
    text_eq out.mode "baseline"
    && (is_some out.model_version
        || is_some out.calibration_version
        || out.calibrated
        || not (text_eq out.coverage "complete"))

unfoldable pub valid_response : Response → Request → Bool
valid_response out in' =
    not (bad_response out in')
    && not (bad_baseline out)
    && good_decisions (text_eq out.mode "baseline") in'.rules out.decisions

unfoldable pub safe_character : ℕ → Bool
safe_character c =
    (leb b'a' c && leb c b'z')
    || (leb b'A' c && leb c b'Z')
    || (leb b'0' c && leb c b'9')
    || c == b'-'
    || c == b'_'
    || c == b'.'

unfoldable pub safe_characters : Str → Bool
safe_characters [] = true
safe_characters (c ∷ s) = safe_character c && safe_characters s

unfoldable pub safe_diagnostic_id : Str → Bool
safe_diagnostic_id id = not (len id == 0 || ltb 128 (len id)) && safe_characters id

pub data State : Type 0 where
  ready invalid_request unavailable_state unauthorized invalid_response : State

-- What the service answers: no answer (also when the request cannot be made), or a status code, with
-- the size of the body, or none if it cannot be read, and the response, if the JSON decodes and
-- `completeResponse` finds every field in it.
pub data Reply : Type 0 where
  no_reply : Reply
  status : ℕ → Option ℕ → Option Response → Reply

too_large : Option ℕ → Bool
too_large none = true
too_large (some n) = ltb 1048576 n

unfoldable pub read_response : Option Response → Request → Option Response × State
read_response none in' = (none, State.invalid_response)
read_response (some out) in' =
    if valid_response out in' then (some out, State.ready) else (none, State.invalid_response)

unfoldable pub read_reply : Reply → Request → Option Response × State
unfolding too_large read_response
read_reply no_reply in' = (none, State.unavailable_state)
read_reply (status code size out) in' =
    if code == 401 || code == 403
    then (none, State.unauthorized)
    else if code == 400 || code == 413
    then (none, State.invalid_request)
    else if not (code == 200)
    then (none, State.unavailable_state)
    else if too_large size
    then (none, State.invalid_response)
    else read_response out in'

-- A client that is not configured is nil. `body_fits`: json.Marshal succeeds and its text is not
-- too large. `send` is the call of the service.
unfoldable pub relevance :
    (Request → Bool) → Option (Request → Reply) → Request → Option Response × State
unfolding read_reply
relevance body_fits none in' = (none, State.unavailable_state)
relevance body_fits (some send) in' =
    if bad_head in'
    then (none, State.invalid_request)
    else if not (good_rules [] in'.rules)
    then (none, State.invalid_request)
    else if not (body_fits in')
    then (none, State.invalid_request)
    else read_reply (send in') in'

-- `Client.Relevance`: a response, or one of two errors.
unfoldable pub public_result : Option Response × State → Result Response
public_result (some out, State.ready) = ok out
public_result (none, State.ready) = err unavailable
public_result (o, State.invalid_request) = err invalid
public_result (o, State.unavailable_state) = err unavailable
public_result (o, State.unauthorized) = err unavailable
public_result (o, State.invalid_response) = err unavailable

unfoldable pub relevance_call :
    (Request → Bool) → Option (Request → Reply) → Request → Result Response
unfolding relevance public_result
relevance_call body_fits send in' = public_result (relevance body_fits send in')

-- What `Client.Check` shows of an answer: the state, the mode and the ID.
checked : Option Response × State → State × String × Str
unfolding safe_diagnostic_id
checked (some out, State.ready) =
    if not (safe_diagnostic_id out.decision_id)
    then (State.invalid_response, "", [])
    else (State.ready, out.mode, out.decision_id)
checked (none, State.ready) = (State.invalid_response, "", [])
checked (o, State.unauthorized) = (State.unauthorized, "", [])
checked (o, State.invalid_response) = (State.invalid_response, "", [])
checked (o, State.invalid_request) = (State.unavailable_state, "", [])
checked (o, State.unavailable_state) = (State.unavailable_state, "", [])

-- `Client.Check` of a configured client; its fixed request is `in'`.
unfoldable pub check_call : (Request → Bool) → (Request → Reply) → Request → State × String × Str
unfolding relevance checked
check_call body_fits send in' = checked (relevance body_fits (some send) in')
