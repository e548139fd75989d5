-- ===== src/Examples/Others.antt =====
-- Examples of the review queue, the server, the decision client and the usage counters.
use kasane_mcp.Prelude.{
  ℕ, ◌+◌, ◌≤◌, ◌≡◌, refl, Bool, true, false, List, [], ◌∷◌, Option, none, some, String, Str, ℤ, pos,
  arith, length, replicate, Result, ok, err, unavailable,
}
use kasane_mcp.Table.{Table, lookup}
use kasane_mcp.Feedback as Feedback
use kasane_mcp.Feedback.Rows as Rows
use kasane_mcp.Feedback.Lawful.{IsLawful}
use kasane_mcp.Feedback.Lifecycle as Lifecycle
use kasane_mcp.Server.Access.{Identity, Grants, workspace_principal}
use kasane_mcp.Server.Access.Granted.{Answer, workspace_principal-Answer}
use kasane_mcp.Server.Limiter.{Throttle, allowed}
use kasane_mcp.Server.Limiter.Window.{allowed-le}
use kasane_mcp.Server.Judgements as J
use kasane_mcp.Server.Judgements.Exact.{
  occurrences, rule_ids, judged_ids, validate_judgements-exact,
}
use kasane_mcp.Decision.{Rule, Request, Decision, Response, Reply, relevance_call}
use kasane_mcp.Decision.Answer.{Answers, relevance_call-Answers}
use kasane_mcp.Core.Ids.{valid_uuid}
use kasane_mcp.Core.Pack.{pack_context, full_context_characters}
use kasane_mcp.Core.Types.{SearchResult}
use kasane_mcp.Core.Validation.{validate_search}
use kasane_mcp.Search.{Repository, Index, Source, search, search-Source}
use kasane_mcp.Server.Tools as Tools
use kasane_mcp.Server.Tools.Guarded.{read_only-keeps}
use kasane_mcp.Store.Migrate as Migrate
use kasane_mcp.Store.Usage as Usage
use kasane_mcp.Store.Usage.Balance as Balance
use kasane_mcp.Examples.Fixtures.{
  ascii, env, db, raw, home, away, note_id, workspace, memory, raw_search, good_search,
}

abbrev feedback_env : Rows.Env
feedback_env = record { uuid = λ s. some s; valid_json = λ _. true; stored = λ s. s }

abbrev hash : Str
hash = replicate 64 b'0'

abbrev saved : Rows.Db
saved =
    (Feedback.save feedback_env 5 5 home note_id hash (b'k' ∷ []) (b'1' ∷ []) 30 Lifecycle.empty_db
      []).1

abbrev saving : Lifecycle.Reach feedback_env 5 saved
saving =
    Lifecycle.Reach.step (Lifecycle.Reach.start 0) (omega arith)
      (Lifecycle.Step.saves 5 home note_id hash (b'k' ∷ []) (b'1' ∷ []) 30 [])

feedback-IsLawful_example :
    IsLawful 6 (Feedback.review feedback_env 6 home note_id (b'o' ∷ []) (b'1' ∷ []) saved []).1
feedback-IsLawful_example = Lifecycle.feedback-IsLawful (
    Lifecycle.Reach.step saving (omega arith)
      (Lifecycle.Step.reviews home note_id (b'o' ∷ []) (b'1' ∷ []) []))

abbrev key : Identity
key = record {
  username = b'u' ∷ [];
  csrf = [];
  workspace = home;
  scope = "write";
  key_id = note_id;
  access_mode = "all";
  role = "agent";
  can_create_workspaces = false;
}

abbrev grants : Grants
grants = record { workspaces = (home, workspace) ∷ []; grants = [] }

workspace_principal-Answer_example :
    Answer env
      (some key)
      true
      grants
      (workspace_principal env (some key) home true grants []).0
      (workspace_principal env (some key) home true grants []).1
workspace_principal-Answer_example = workspace_principal-Answer env (some key) home true grants []

abbrev entries : Table Throttle
entries = (home, record { count = 9; expires = 100 }) ∷ []

abbrev calls : List (Str × ℕ)
calls = (home, 10) ∷ (note_id, 11) ∷ (home, 12) ∷ []

entries_run : lookup home entries ≡ some (record { count = 9; expires = 100 })
unfolding lookup kasane_mcp.Prelude.str_eq
entries_run = refl

allowed-le_example : allowed home calls entries + 9 ≤ 10
allowed-le_example =
    allowed-le home calls entries (record { count = 9; expires = 100 }) entries_run (omega arith)
      (omega arith, (omega arith, (omega arith, tt)))

abbrev request : Request
request = record {
  task = b't' ∷ [];
  paths = [];
  context = none;
  rules = record { id = b'r' ∷ []; text = b'x' ∷ []; required = true; paths = [] } ∷ [];
}

abbrev response : Response
response = record {
  decision_id = b'd' ∷ [];
  mode = "baseline";
  model_version = none;
  calibration_version = none;
  calibrated = false;
  coverage = "complete";
  decisions =
      record { rule_id = b'r' ∷ []; include = true; reason = "required"; probability = none } ∷ [];
}

abbrev service : Request → Reply
service _ = Reply.status 200 (some 100) (some response)

response_run : relevance_call (λ _. true) (some service) request ≡ ok response
unfolding relevance_call kasane_mcp.Decision.bad_head kasane_mcp.GoText.trim_space
    kasane_mcp.GoText.is_space kasane_mcp.GoText.len kasane_mcp.Decision.good_rules
    kasane_mcp.Decision.bad_rule kasane_mcp.Core.Validation.member
    kasane_mcp.Decision.valid_response kasane_mcp.Decision.bad_response
    kasane_mcp.Decision.bad_baseline kasane_mcp.Decision.good_decisions
    kasane_mcp.Decision.good_decision kasane_mcp.Prelude.str_eq kasane_mcp.Decision.good_reason
response_run = refl

relevance_call-Answers_example : Answers request.rules response.decisions
relevance_call-Answers_example =
    relevance_call-Answers (λ _. true) (some service) request response response_run

abbrev references : List J.RuleReference
references = record { expected_revision = pos 1; id = note_id; required = false; paths = [] } ∷ []

abbrev judgements : List J.Judgement
judgements = record { rule_id = note_id; label = "relevant"; rationale = b'y' ∷ [] } ∷ []

judgements_run : J.validate_judgements references judgements ≡ ok tt
unfolding J.validate_judgements J.good_ids kasane_mcp.Core.Ids.valid_id
    kasane_mcp.Core.Validation.member J.good_judgements kasane_mcp.Prelude.str_eq J.good_judgement
    kasane_mcp.GoText.trim_space kasane_mcp.GoText.is_space
judgements_run = refl

validate_judgements-exact_example :
    (occurrences note_id (judged_ids judgements) ≡ occurrences note_id (rule_ids references))
    × (occurrences note_id (rule_ids references) ≤ 1)
validate_judgements-exact_example =
    validate_judgements-exact references judgements judgements_run note_id

abbrev requests : List Balance.Request
requests = record { day = 40; ws = home; full = pos 10; returned = pos 7; faults = [] } ∷ []

usage_where-Balanced_example :
    Balance.Balanced
      (Usage.usage_where (λ _. true) 40 (Balance.counted (λ s. some s) requests [])).totals
usage_where-Balanced_example = Balance.usage_where-Balanced (λ s. some s) requests (λ _. true) 40

home_valid_run : valid_uuid home ≡ true
unfolding valid_uuid
home_valid_run = refl

count_context-accepts_example :
    Usage.count_context
      (λ s. some s)
      40
      home
      (memory ∷ [])
      (pack_context (memory ∷ []) (pos 20))
      []
      []
    ≡ (
      ok tt,
      Usage.add_usage home 40
          (Usage.retrieval
            (full_context_characters (memory ∷ []))
            (pack_context (memory ∷ []) (pos 20)).characters)
          [],
    )
count_context-accepts_example =
    Balance.count_context-accepts (λ s. some s) 40 home home (memory ∷ []) 20 [] home_valid_run refl

abbrev reader : Identity
reader = record key { scope = "read" }

read_only-keeps_example :
    ((Tools.remember_tool env (some reader) [] db [] 5 none home raw []).1 ≡ db)
    × ((Tools.forget_tool env (some reader) [] db [] 5 home note_id []).1 ≡ db)
    × ((Tools.move_tool env (some reader) [] db [] 5 home away note_id (pos 1) [] []).1 ≡ db)
read_only-keeps_example =
    read_only-keeps env reader [] db [] refl 5 none home away note_id raw (pos 1) [] []

abbrev listing : SearchResult
listing = record { memories = memory ∷ []; degraded = false; total = 1 }

abbrev repository : Repository
repository = record { list = λ _ _. ok listing; rehydrate = λ _ _. ok [] }

abbrev broken_index : Index
broken_index _ _ = err unavailable

search_input_run : validate_search ascii raw_search ≡ ok good_search
unfolding validate_search kasane_mcp.Core.Validation.out_of_bounds kasane_mcp.GoText.len
    kasane_mcp.GoText.trim_space kasane_mcp.GoText.is_space kasane_mcp.GoText.to_lower
search_input_run = refl

search_run :
    search ascii repository broken_index home raw_search ≡ ok (record listing { degraded = true })
unfolding search validate_search kasane_mcp.Core.Validation.out_of_bounds kasane_mcp.GoText.len
    kasane_mcp.GoText.trim_space kasane_mcp.GoText.is_space kasane_mcp.GoText.to_lower
search_run = refl

search-Source_example :
    Source repository broken_index home good_search (record listing { degraded = true })
search-Source_example =
    search-Source ascii repository broken_index home raw_search good_search
      (record listing { degraded = true }) search_input_run search_run

abbrev upgraded : Migrate.Db
upgraded = record { versions = 5 ∷ 2 ∷ []; applied = [] }

upgraded_run : Migrate.max_version upgraded.versions ≡ some 5
unfolding Migrate.max_version
upgraded_run = refl
