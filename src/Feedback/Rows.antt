-- ===== src/Feedback/Rows.antt =====
-- The rows of internal/store/decision_feedback.sql, `DecisionEvaluation` of
-- internal/store/decision_feedback.go, and the queries that its statements share.
use kasane_mcp.Prelude.{
  ℕ, ◌+◌, Bool, true, false, ◌&&◌, List, [], ◌∷◌, Option, none, some, Str, str_eq, ltb, is_some,
  if◌then◌else◌,
}
use kasane_mcp.Table.{Table, bit, lookup, modify}

-- How PostgreSQL reads a uuid, `json.Valid`, and the text that a jsonb column gives back for the
-- one it was given.
pub record Env : Type 0 where
  pub uuid : Str → Option Str
  pub valid_json : Str → Bool
  pub stored : Str → Str

pub data Status : Type 0 where
  unreviewed agent_generated reviewed withdrawn : Status

abbrev pub is_generated : Status → Bool
is_generated Status.unreviewed = false
is_generated Status.agent_generated = true
is_generated Status.reviewed = false
is_generated Status.withdrawn = false

pub record Evaluation : Type 0 where
  pub id : Str
  pub workspace_id : Str
  pub request_hash : Str
  pub submitted_by : Str
  pub payload : Option Str
  pub review_status : Status
  pub review : Option Str
  pub reviewed_by : Option Str
  pub reviewed_at : Option ℕ
  pub permission_granted_at : Option ℕ
  pub created_at : ℕ
  pub expires_at : ℕ

pub record Policy : Type 0 where
  pub enabled : Bool
  pub updated_by : Str
  pub updated_at : ℕ

pub record Db : Type 0 where
  pub evaluations : List Evaluation
  pub policies : Table Policy

-- workspace_id=$1 AND id=$2
unfoldable pub of_pair : Str → Str → Evaluation → Bool
of_pair w id e = str_eq e.workspace_id w && str_eq e.id id

unfoldable pub find_where : (Evaluation → Bool) → List Evaluation → Option Evaluation
find_where p [] = none
find_where p (e ∷ es) = if p e then some e else find_where p es

unfoldable pub map_where :
    (Evaluation → Bool) → (Evaluation → Evaluation) → List Evaluation → List Evaluation
map_where p f [] = []
map_where p f (e ∷ es) = (if p e then f e else e) ∷ map_where p f es

unfoldable pub count_where : (Evaluation → Bool) → List Evaluation → ℕ
count_where p [] = 0
count_where p (e ∷ es) = bit (p e) + count_where p es

-- workspace_id=$1 AND expires_at>now() AND payload IS NOT NULL
unfoldable pub live : ℕ → Str → Evaluation → Bool
live now w e = str_eq e.workspace_id w && ltb now e.expires_at && is_some e.payload

-- INSERT … ON CONFLICT(workspace_id) DO UPDATE
unfoldable pub put_policy : ℕ → Str → Str → Bool → Table Policy → Table Policy
put_policy now w owner enabled t =
    let new : Policy = record { enabled = enabled; updated_by = owner; updated_at = now } in
    if is_some (lookup w t) then modify w (λ _. new) t else (w, new) ∷ t
