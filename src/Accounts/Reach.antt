-- ===== src/Accounts/Reach.antt =====
-- Runs of the accounts: the operations of internal/server (security.go, invitations.go, app.go)
-- and internal/store that write owners, sessions, the waitlist, invitations, keys or workspaces, one behind the other, each with
-- any arguments, any clock and any failing statements.
use kasane_mcp.Prelude.{ℕ, [], Option, Str, arith}
use kasane_mcp.Table.{Table, count}
use kasane_mcp.Tx.{Faults}
use kasane_mcp.Store.Schema.{Env}
use kasane_mcp.Server.Limiter.{Throttle}
use kasane_mcp.Accounts.Schema.{Db}
use kasane_mcp.Accounts.Login.{Crypto, Browser, Credentials, Moment, bootstrap, login, logout}
use kasane_mcp.Accounts.Keys.{NewKey, agent, create_key, revoke_key}
use kasane_mcp.Accounts.Invitations.{Applicant, Acceptance, join_waitlist, accept, invite, revoke}
use kasane_mcp.Accounts.Workspaces.{
  create_workspace, create_workspace_owned, create_workspace_for_key,
}
use kasane_mcp.Accounts.Sound.{IsSound}
use kasane_mcp.Accounts.Sound.Places.{
  create_workspace-IsSound, create_workspace_owned-IsSound, create_workspace_for_key-IsSound,
}
use kasane_mcp.Accounts.Sound.Logins.{bootstrap-IsSound, login-IsSound, logout-IsSound}
use kasane_mcp.Accounts.Sound.Joins.{
  join_waitlist-IsSound, accept-IsSound, invite-IsSound, revoke-IsSound,
}
use kasane_mcp.Accounts.Sound.AgentKeys.{agent-IsSound, revoke_key-IsSound}
use kasane_mcp.Accounts.Sound.NewKeys.{create_key-IsSound}

abbrev pub empty_db : Db
empty_db = record {
  owners = [];
  sessions = [];
  invitations = [];
  waitlist = [];
  workspaces = [];
  keys = [];
  grants = [];
}

pub data Step (crypto : Crypto) (env : Env) (parse : Str → Option Str) (db : Db) : Db → Type 0 where
  bootstraps :
      (username password : Str) (fs : Faults)
      → Step crypto env parse db (bootstrap crypto username password db fs).1
  logs_in :
      (url : Str) (m : Moment) (b : Browser) (body : Option Credentials) (entries : Table Throttle)
      (select fs : Faults)
      → Step crypto env parse db (login crypto url m b body entries db select fs).0.1
  logs_out : (cookie : Str) (fs : Faults) → Step crypto env parse db (logout crypto cookie db fs).1
  calls :
      (url : Str) (now : ℕ) (origin auth : Str) (fs : Faults)
      → Step crypto env parse db (agent crypto url now origin auth db fs).1
  creates_key :
      (now : ℕ) (id token path : Str) (raw : NewKey) (fs : Faults)
      → Step crypto env parse db (create_key crypto env now id token path raw db fs).1
  revokes_key :
      (now : ℕ) (path id : Str) (fs : Faults)
      → Step crypto env parse db (revoke_key env now path id db fs).1
  applies :
      (url : Str) (m : Moment) (b : Browser) (body : Option Applicant) (entries : Table Throttle)
      (fs : Faults)
      → Step crypto env parse db (join_waitlist env.unicode parse url m b body entries db fs).0.1
  invites :
      (m : Moment) (id raw : Str) (fs : Faults)
      → Step crypto env parse db (invite crypto env.unicode parse m id raw db fs).1
  revokes :
      (now : ℕ) (id : Str) (fs : Faults) → Step crypto env parse db (revoke env now id db fs).1
  accepts :
      (url : Str) (m : Moment) (workspace : Str) (b : Browser) (body : Option Acceptance)
      (entries : Table Throttle) (fs : Faults)
      → Step crypto env parse db (accept crypto url m workspace b body entries db fs).0.1
  creates_workspace :
      (now : ℕ) (fresh : Option Str) (name : Str) (fs : Faults)
      → Step crypto env parse db (create_workspace now fresh name db fs).1
  creates_owned :
      (now : ℕ) (fresh raw username : Str) (fs : Faults)
      → Step crypto env parse db (create_workspace_owned now fresh raw username db fs).1
  creates_for_key :
      (now : ℕ) (fresh : Option Str) (key name : Str) (fs : Faults)
      → Step crypto env parse db (create_workspace_for_key env now fresh key name db fs).1

pub data Reach (crypto : Crypto) (env : Env) (parse : Str → Option Str) : Db → Type 0 where
  start : Reach crypto env parse empty_db
  step :
      {db db' : Db}
      → Reach crypto env parse db
      → Step crypto env parse db db'
      → Reach crypto env parse db'

empty_db-IsSound : IsSound empty_db
unfolding count
empty_db-IsSound = record {
  admins = omega arith;
  accounts = omega arith;
  admitted = tt;
  emails = λ e. omega arith;
  sessions = tt;
  keys = tt;
  grants = tt;
  keyed = tt;
}

module _ {crypto : Crypto} {env : Env} {parse : Str → Option Str} where
  Step-IsSound : {db db' : Db} → IsSound db → Step crypto env parse db db' → IsSound db'
  Step-IsSound {db} s (bootstraps username password fs) =
      bootstrap-IsSound crypto username password db fs s
  Step-IsSound {db} s (logs_in url m b body entries select fs) =
      login-IsSound crypto url m b body entries db select fs s
  Step-IsSound {db} s (logs_out cookie fs) = logout-IsSound crypto cookie db fs s
  Step-IsSound {db} s (calls url now origin auth fs) =
      agent-IsSound crypto url now origin auth db fs s
  Step-IsSound {db} s (creates_key now id token path raw fs) =
      create_key-IsSound crypto env now id token path raw db fs s
  Step-IsSound {db} s (revokes_key now path id fs) = revoke_key-IsSound env now path id db fs s
  Step-IsSound {db} s (applies url m b body entries fs) =
      join_waitlist-IsSound env.unicode parse url m b body entries db fs s
  Step-IsSound {db} s (invites m id raw fs) =
      invite-IsSound crypto env.unicode parse m id raw db fs s
  Step-IsSound {db} s (revokes now id fs) = revoke-IsSound env now id db fs s
  Step-IsSound {db} s (accepts url m workspace b body entries fs) =
      accept-IsSound crypto url m workspace b body entries db fs s
  Step-IsSound {db} s (creates_workspace now fresh name fs) =
      create_workspace-IsSound now fresh name db fs s
  Step-IsSound {db} s (creates_owned now fresh raw username fs) =
      create_workspace_owned-IsSound now fresh raw username db fs s
  Step-IsSound {db} s (creates_for_key now fresh key name fs) =
      create_workspace_for_key-IsSound env now fresh key name db fs s

  -- In every run of bootstrap, login, logout, agent calls, key creation and revocation, waitlist
  -- entries, invitations, their revocation and acceptance, and new workspaces from empty tables: there is at most
  -- one administrator; there are at most as many users as accepted invitations, every user has an
  -- email with an accepted invitation for it, and no two accounts have one email; every session is
  -- of an account; every key has a known scope and mode, its workspace is there, and it may create
  -- workspaces only with scope write and a mode other than single; and every grant is of a key to a
  -- workspace with the owner of the key's own.
  pub accounts-IsSound : {db : Db} → Reach crypto env parse db → IsSound db
  accounts-IsSound start = empty_db-IsSound
  accounts-IsSound (step r s) = Step-IsSound (accounts-IsSound r) s
