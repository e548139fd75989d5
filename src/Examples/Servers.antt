-- ===== src/Examples/Servers.antt =====
-- Examples of the client's address, the worker, the lists and the export of evaluations.
use mathlib.Core.List.{reverse}
use kasane_mcp.Prelude.{
  Bool, ◌↔◌, ◌≡◌, refl, true, false, List, [], ◌∷◌, none, some, Str, str_eq, arith, length, ok,
}
use kasane_mcp.Table.{lookup, count}
use kasane_mcp.Core.Types.{SearchInput, SearchResult}
use kasane_mcp.Core.Validation.{validate_search}
use kasane_mcp.Store.Schema.{Env, Db, MemoryRow, JobRow, EventKind, profile_count, scan_memory}
use kasane_mcp.Store.Consistent.{IsConsistent, insert-IsConsistent, live-WellFormed}
use kasane_mcp.Store.Outbox.{enqueue}
use kasane_mcp.Store.Reach as Run
use kasane_mcp.Store.Lists.{FullText, profile, list_for, owned_by}
use kasane_mcp.Store.Lists.Profiles.{profile-Whole}
use kasane_mcp.Store.Lists.Pages.{Page, Wanted, list_for-Page}
use kasane_mcp.Server.ClientIp.{Net, split_comma, client_ip, stops, client_ip-append}
use kasane_mcp.Server.Worker.{Turn, started, run_worker}
use kasane_mcp.Server.Worker.Empties.{Settled, run_worker-Settled}
use kasane_mcp.Feedback.Rows as Rows
use kasane_mcp.Server.Http.{Reply}
use kasane_mcp.Server.Evaluations.{Payload, Review, Codec}
use kasane_mcp.Server.Evaluations.Exports.{Event, export_evaluation}
use kasane_mcp.Server.Evaluations.Published.{Published, export_evaluation-Published}
use kasane_mcp.Examples.Fixtures.{env, home, note_id, db, raw_search, note}

-- Addresses are their texts, the one trusted proxy is "9".
abbrev net : Net Str Str
net = record { split_host = λ s. some s; parse = λ s. some s; print = λ s. s; contains = str_eq }

abbrev proxies : List Str
proxies = (b'9' ∷ []) ∷ []

stops_run : stops net proxies (reverse (split_comma (b'5' ∷ []))) ≡ true
unfolding split_comma kasane_mcp.Server.ClientIp.trusted str_eq kasane_mcp.GoText.trim_space
    kasane_mcp.GoText.is_space
stops_run = refl

client_ip-append_example :
    client_ip net proxies (b'9' ∷ []) (b'7' ∷ b',' ∷ b'5' ∷ [])
    ≡ client_ip net proxies (b'9' ∷ []) (b'5' ∷ [])
client_ip-append_example =
    client_ip-append net proxies (b'9' ∷ []) (b'7' ∷ []) (b'5' ∷ []) stops_run

client_run : client_ip net proxies (b'9' ∷ []) (b'7' ∷ b',' ∷ b'5' ∷ []) ≡ b'5' ∷ []
unfolding client_ip kasane_mcp.Server.ClientIp.trusted str_eq kasane_mcp.Server.ClientIp.walk
    split_comma kasane_mcp.GoText.trim_space kasane_mcp.GoText.is_space
client_run = refl

note_row : lookup note_id db.memories ≡ some note
unfolding lookup str_eq
note_row = refl

abbrev turn : Turn
turn = record {
  purge_clock = 5;
  purged_at = 5;
  check_clock = 5;
  checked_at = 5;
  purge_now = 5;
  now = 5;
  clock = 5;
  ensured = true;
  locked = λ _. false;
  apply = λ _. true;
  purge_faults = [];
  faults = [];
}

abbrev no_rows : Rows.Db
no_rows = record { evaluations = []; policies = [] }

abbrev queued_db : Db
queued_db = record Run.empty_db {
  memories = (note_id, note) ∷ [];
  outbox = enqueue 1 note_id EventKind.upsert 1 [];
}

queued_db-IsConsistent : IsConsistent queued_db
unfolding lookup count profile_count
queued_db-IsConsistent =
    insert-IsConsistent (Run.Reach-IsConsistent {env = env} Run.Reach.here) 1 note_id note refl
      (omega arith) (live-WellFormed note refl refl) (λ w _. omega arith)

run_worker-Settled_example : Settled (run_worker (turn ∷ []) started queued_db no_rows).1.0
unfolding enqueue lookup
run_worker-Settled_example =
    run_worker-Settled 1 (turn ∷ []) started queued_db no_rows queued_db-IsConsistent
      (omega arith, tt) (omega arith)
      (
        record {
          answers = refl;
          ensures = refl;
          free = λ _. refl;
          takes = λ _. refl;
          soon = omega arith;
          late = omega arith;
        },
        tt,
      )

abbrev texts : FullText
texts = record {
  matches = λ _ _. true;
  ranks = λ _ _ _. false;
  before = λ _ _. false;
  profile_before = λ _ _. true;
}

profile_run : (profile env texts home queued_db []).0 ≡ ok (scan_memory note_id note ∷ [])
unfolding profile kasane_mcp.Tx.run kasane_mcp.Store.Schema.cast_tx
    kasane_mcp.Store.Lists.profile_rows kasane_mcp.Store.Lists.sort_by
    kasane_mcp.Store.Lists.rows_where kasane_mcp.Store.Schema.in_profile str_eq
profile_run = refl

profile-Whole_example : length (scan_memory note_id note ∷ []) ≡ profile_count home queued_db
profile-Whole_example =
    profile-Whole env texts home home queued_db [] (scan_memory note_id note ∷ [])
      queued_db-IsConsistent refl profile_run

abbrev found : SearchResult
found = record { memories = scan_memory note_id note ∷ []; degraded = false; total = 1 }

list_run : (list_for env texts (b'u' ∷ []) raw_search db db []).0 ≡ ok found
unfolding list_for kasane_mcp.Store.Lists.list_valid validate_search
    kasane_mcp.Core.Validation.out_of_bounds kasane_mcp.GoText.len kasane_mcp.GoText.trim_space
    kasane_mcp.GoText.is_space kasane_mcp.GoText.to_lower kasane_mcp.Tx.run
    kasane_mcp.Store.Lists.list_tx kasane_mcp.Store.Lists.page kasane_mcp.Store.Lists.rows_where
    kasane_mcp.Store.Lists.sort_by owned_by lookup str_eq kasane_mcp.Store.Lists.wanted
list_run = refl

list_for-Page_example :
    (in' : SearchInput) × (validate_search env.unicode raw_search ≡ ok in')
    × (p : Db → MemoryRow → Bool) × ((d : Db) (row : MemoryRow)
        → (p d row ≡ true) ↔ Wanted texts (b'u' ∷ []) in' d row)
    × Page p in' db db found
list_for-Page_example = list_for-Page env texts (b'u' ∷ []) raw_search db db [] found list_run

abbrev payload : Payload
payload = record {
  source_group = b'g' ∷ [];
  source_origin = "real";
  agent_model = b'm' ∷ [];
  label_author = "agent";
  request = record { task = []; paths = []; context = none; rules = [] };
  result = record {
    response = record {
      decision_id = b'd' ∷ [];
      mode = "baseline";
      model_version = none;
      calibration_version = none;
      calibrated = false;
      coverage = "";
      decisions =
          record { rule_id = note_id; include = true; reason = ""; probability = none } ∷ [];
    };
    rules = scan_memory note_id note ∷ [];
  };
  judgements = record { rule_id = note_id; label = "relevant"; rationale = b'r' ∷ [] } ∷ [];
}

abbrev codec : Codec
codec = record {
  encode_input = λ _. some [];
  encode_payload = λ _. some [];
  decode_payload = λ _. some payload;
  encode_review = λ _. some [];
  decode_review = λ r _. some r;
  fingerprint = λ s. s;
}

abbrev feedback_env : Rows.Env
feedback_env = record { uuid = λ s. some s; valid_json = λ _. true; stored = λ s. s }

abbrev generated : Rows.Db
generated = record {
  evaluations =
      record {
        id = note_id;
        workspace_id = home;
        request_hash = [];
        submitted_by = [];
        payload = some [];
        review_status = Rows.Status.agent_generated;
        review = none;
        reviewed_by = none;
        reviewed_at = none;
        permission_granted_at = some 1;
        created_at = 1;
        expires_at = 9;
      }
      ∷ [];
  policies = [];
}

abbrev event : Event
event = record {
  rule_id = note_id;
  rule_revision = 1;
  prediction = "relevant";
  feedback_label = "relevant";
  review_status = Rows.Status.agent_generated;
  permission_record_id = note_id;
}

export_run :
    export_evaluation feedback_env codec 5 6 5 home note_id generated generated [] []
    ≡ Reply.answered 200 (event ∷ [])
unfolding export_evaluation kasane_mcp.Server.Evaluations.Exports.row_found
    kasane_mcp.Feedback.Reads.decision_evaluation kasane_mcp.Core.Ids.valid_uuid kasane_mcp.Tx.run
    kasane_mcp.Feedback.uuid_tx kasane_mcp.Feedback.Reads.evaluation_row
    kasane_mcp.Feedback.Reads.present str_eq kasane_mcp.Server.Evaluations.Exports.archive_built
    kasane_mcp.Server.Evaluations.Exports.evaluation_archive
    kasane_mcp.Server.Evaluations.Exports.payload_archive
    kasane_mcp.Server.Evaluations.decode_evaluation kasane_mcp.Server.Evaluations.Exports.archived
    kasane_mcp.Server.Evaluations.Exports.events_of kasane_mcp.Server.Evaluations.Exports.published
    kasane_mcp.Server.Evaluations.Exports.event_of scan_memory
    kasane_mcp.Server.Evaluations.Exports.prediction kasane_mcp.Server.Evaluations.Exports.label_of
    Rows.find_where Rows.of_pair
export_run = refl

export_evaluation-Published_example :
    Published feedback_env codec 5 6 5 home note_id generated generated [] [] (event ∷ [])
export_evaluation-Published_example =
    export_evaluation-Published feedback_env codec 5 6 5 home note_id generated generated []
      (event ∷ []) 200 [] export_run
