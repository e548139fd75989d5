-- ===== src/Examples/Fixtures.antt =====
-- The inputs of the examples: Unicode tables of ASCII, texts that read as UUIDs as they are, and a
-- store with two workspaces and one memory.
use kasane_mcp.Prelude.{ℕ, false, [], ◌∷◌, ◌++◌, none, some, Str, pos, leb, ◌&&◌, arith, replicate}
use kasane_mcp.GoText.{Unicode, is_space}
use kasane_mcp.GoText.Trim.{LowerLaws}
use kasane_mcp.Core.Types.{Memory, RememberInput, SearchInput}
use kasane_mcp.Store.Schema.{Env, Db, WorkspaceRow, MemoryRow, JobRow, EventKind}

abbrev pub ascii : Unicode
ascii = record {
  is_letter = λ c. leb b'a' c && leb c b'z';
  is_number = λ c. leb b'0' c && leb c b'9';
  lower = λ c. c;
}

pub ascii_laws : LowerLaws ascii
ascii_laws = record {
  lower_idem = λ c. ground arith;
  lower_space = λ c. unfold is_space in ground arith;
}

abbrev pub env : Env
env = record { unicode = ascii; uuid = λ s. some s }

-- 00000000-0000-0000-0000-00000000000d
abbrev pub uuid_of : ℕ → Str
uuid_of d =
    replicate 8 b'0'
    ++ b'-'
      ∷ (replicate 4 b'0'
          ++ b'-'
            ∷ (replicate 4 b'0'
                ++ b'-' ∷ (replicate 4 b'0' ++ b'-' ∷ (replicate 11 b'0' ++ d ∷ []))))

abbrev pub home : Str
home = uuid_of b'1'

abbrev pub away : Str
away = uuid_of b'2'

abbrev pub note_id : Str
note_id = uuid_of b'3'

abbrev pub other_id : Str
other_id = uuid_of b'4'

abbrev pub workspace : WorkspaceRow
workspace = record { name = b'p' ∷ []; owner_username = some (b'u' ∷ []); created_at = 1 }

abbrev pub note : MemoryRow
note = record {
  kind = "practice";
  workspace_id = home;
  title = b't' ∷ [];
  content = b'c' ∷ [];
  tags = [];
  source = [];
  revision = 1;
  indexed_revision = 0;
  idempotency_key = none;
  deleted = false;
  created_at = 1;
  updated_at = 1;
}

abbrev pub job : JobRow
job = record {
  event_kind = EventKind.upsert;
  revision = 1;
  attempts = 0;
  next_attempt = 1;
  created_at = 1;
}

abbrev pub db : Db
db = record {
  workspaces = (home, workspace) ∷ (away, workspace) ∷ [];
  memories = (note_id, note) ∷ [];
  outbox = (note_id, job) ∷ [];
}

abbrev pub raw : RememberInput
raw = record {
  kind = "";
  id = [];
  title = b' ' ∷ b't' ∷ [];
  content = b'c' ∷ [];
  tags = (b' ' ∷ b'x' ∷ []) ∷ (b'x' ∷ []) ∷ [];
  source = [];
  expected_revision = pos 0;
  idempotency_key = [];
}

-- The same input as it is accepted.
abbrev pub accepted : RememberInput
accepted = record raw { kind = "memory"; title = b't' ∷ []; tags = (b'x' ∷ []) ∷ [] }

abbrev pub change : RememberInput
change = record accepted { id = note_id; expected_revision = pos 1 }

abbrev pub outdated : RememberInput
outdated = record change { expected_revision = pos 2 }

abbrev pub memory : Memory
memory = record {
  kind = "memory";
  id = b'a' ∷ [];
  workspace_id = home;
  title = b't' ∷ [];
  content = b'c' ∷ [];
  tags = [];
  source = [];
  revision = 1;
  indexed_revision = 1;
  indexing_status = "indexed";
  created_at = 1;
  updated_at = 1;
  deleted = false;
  score = 0;
}

abbrev pub raw_search : SearchInput
raw_search = record { kind = ""; query = b' ' ∷ b'q' ∷ []; tag = []; limit = pos 0; offset = pos 0 }

abbrev pub good_search : SearchInput
good_search = record raw_search { query = b'q' ∷ []; limit = pos 10 }
