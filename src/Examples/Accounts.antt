-- ===== src/Examples/Accounts.antt =====
-- Examples of accounts, sessions, invitations, agent keys and workspaces.
use kasane_mcp.Prelude.{
  ℕ, ◌≡◌, ◌≢◌, refl, true, false, [], ◌∷◌, ◌++◌, none, some, Option, Str, str_eq, arith, replicate,
}
use kasane_mcp.Table.{lookup}
use kasane_mcp.Server.Http.{Reply}
use kasane_mcp.Server.Access.{Identity}
use kasane_mcp.Accounts.Schema.{Role, Owner, Session, KeyRow, Db}
use kasane_mcp.Accounts.Login.{
  Crypto, Browser, Credentials, Moment, bootstrap, login, logout, owner, browser_identity,
}
use kasane_mcp.Accounts.Keys.{
  NewKey, bearer, agent, agent_identity, new_key, normalized, create_key, revoke_key,
}
use kasane_mcp.Accounts.Invitations.{Acceptance, invite, accept}
use kasane_mcp.Accounts.Workspaces.{create_workspace}
use kasane_mcp.Accounts.Reach as Run
use kasane_mcp.Accounts.Sound.{IsSound}
use kasane_mcp.Accounts.Sessions.{Accepts, opened, owner-Accepts, logout-owner}
use kasane_mcp.Accounts.Once.{accept-accept}
use kasane_mcp.Accounts.Authority.{Authentic, agent-Authentic, revoke_key-agent}
use kasane_mcp.Accounts.Issued.{requested, create_key-agent}
use kasane_mcp.Examples.Fixtures.{ascii, env, home, note_id, other_id}

abbrev crypto : Crypto
crypto = record { hash_token = λ s. s; hash = λ p. some p; matches = λ h p. str_eq h p }

abbrev parse : Str → Option Str
parse s = some s

abbrev url : Str
url = b'o' ∷ []

abbrev name : Str
name = b'u' ∷ []

abbrev password : Str
password = replicate 12 b'p'

abbrev token : Str
token = replicate 20 b'k'

abbrev moment : Moment
moment = record { token = token; csrf = b'c' ∷ []; now = 5; clock = 5 }

abbrev browser : Browser
browser = record {
  origin = url;
  address = b'1' ∷ [];
  cookie = some token;
  safe = true;
  csrf_header = [];
}

abbrev email : Str
email = b'a' ∷ b'@' ∷ b'b' ∷ []

-- One administrator.
abbrev db1 : Db
db1 = (bootstrap crypto name password Run.empty_db []).1

abbrev run1 : Run.Reach crypto env parse db1
run1 = Run.Reach.step Run.Reach.start (Run.Step.bootstraps name password [])

-- … who has invited somebody.
abbrev db2 : Db
db2 = (invite crypto ascii parse moment note_id email db1 []).1

abbrev run2 : Run.Reach crypto env parse db2
run2 = Run.Reach.step run1 (Run.Step.invites moment note_id email [])

abbrev acceptance : Acceptance
acceptance = record { token = token; username = b'v' ∷ []; password = password }

accounts-IsSound_example :
    IsSound (accept crypto url moment home browser (some acceptance) [] db2 []).0.1
accounts-IsSound_example =
    Run.accounts-IsSound
      (Run.Reach.step run2 (Run.Step.accepts url moment home browser (some acceptance) [] []))

accept_run :
    (accept crypto url moment home browser (some acceptance) [] db2 []).0.0 ≡ Reply.answered 201 tt
unfolding accept kasane_mcp.Accounts.Login.valid_origin str_eq kasane_mcp.Server.Limiter.allow
    kasane_mcp.Server.Limiter.window lookup kasane_mcp.Accounts.Invitations.accept_decoded
    kasane_mcp.GoText.len kasane_mcp.Accounts.Login.bad_account kasane_mcp.GoText.trim_space
    kasane_mcp.GoText.is_space kasane_mcp.Accounts.Invitations.accept_hashed
    kasane_mcp.Server.Http.reply kasane_mcp.Tx.transact kasane_mcp.Accounts.Invitations.accept_tx
    kasane_mcp.Table.find_row invite kasane_mcp.Accounts.Invitations.accepted
    kasane_mcp.Accounts.Invitations.contains_at kasane_mcp.Accounts.Invitations.insert_invitation
    kasane_mcp.Accounts.Invitations.invite_email kasane_mcp.Accounts.Invitations.invite_tx
    kasane_mcp.Accounts.Invitations.join_tx kasane_mcp.Accounts.Invitations.new_invitation
    kasane_mcp.Accounts.Invitations.normalize_email kasane_mcp.Accounts.Invitations.open_invitation
    kasane_mcp.Accounts.Invitations.personal kasane_mcp.Accounts.Invitations.with_hash
    kasane_mcp.Accounts.Schema.email_taken kasane_mcp.Accounts.Schema.has_email
    kasane_mcp.Accounts.Schema.insert_owner kasane_mcp.Accounts.Schema.insert_workspace
    kasane_mcp.GoText.keep_right kasane_mcp.GoText.to_lower kasane_mcp.GoText.trim_left
    kasane_mcp.GoText.trim_right kasane_mcp.Server.Limiter.make_room kasane_mcp.Server.Limiter.put
    kasane_mcp.Server.Limiter.sweep kasane_mcp.Table.modify kasane_mcp.Table.modify_where
    kasane_mcp.Tx.exec kasane_mcp.Tx.pure kasane_mcp.Tx.query kasane_mcp.Tx.raise kasane_mcp.Tx.run
    kasane_mcp.Tx.statement kasane_mcp.Tx.◌>>=◌ bootstrap kasane_mcp.Accounts.Login.bootstrap_hashed
    kasane_mcp.Accounts.Login.adopt
accept_run = refl

accept-accept_example :
    (n : ℕ) × ((accept crypto url moment other_id browser
        (some acceptance)
        []
        (accept crypto url moment home browser (some acceptance) [] db2 []).0.1
        []).0
      ≡ (Reply.failed n, (accept crypto url moment home browser (some acceptance) [] db2 []).0.1))
accept-accept_example =
    accept-accept crypto url moment moment home other_id browser browser acceptance acceptance [] []
      db2 [] [] 201 accept_run refl

abbrev credentials : Credentials
credentials = record { username = name; password = password }

abbrev logged_in : Db
logged_in = (login crypto url moment browser (some credentials) [] db1 [] []).0.1

abbrev account : Owner
account = record { email = none; password_hash = password; role = Role.admin }

abbrev row : Session
row = opened moment name

owner_run :
    owner crypto url 6 browser logged_in [] ≡ Reply.answered 200 (browser_identity (row, account))
unfolding owner kasane_mcp.Accounts.Login.owner_cookie kasane_mcp.GoText.len
    kasane_mcp.Accounts.Login.check_csrf kasane_mcp.Tx.run kasane_mcp.Accounts.Login.session_owner
    lookup login kasane_mcp.Accounts.Login.valid_origin str_eq kasane_mcp.Server.Limiter.allow
    kasane_mcp.Server.Limiter.window kasane_mcp.Accounts.Login.verify_login bootstrap
    kasane_mcp.Accounts.Login.bad_account kasane_mcp.GoText.trim_space kasane_mcp.GoText.is_space
    kasane_mcp.Accounts.Login.adopt kasane_mcp.Accounts.Login.adopt_row
    kasane_mcp.Accounts.Login.bootstrap_hashed kasane_mcp.Accounts.Login.bootstrap_tx
    browser_identity kasane_mcp.Accounts.Login.login_decoded kasane_mcp.Accounts.Login.session_tx
    kasane_mcp.Accounts.Schema.email_taken kasane_mcp.Accounts.Schema.fresh_sessions
    kasane_mcp.Accounts.Schema.has_email kasane_mcp.Accounts.Schema.insert_owner
    kasane_mcp.Accounts.Schema.insert_session kasane_mcp.GoText.keep_right
    kasane_mcp.GoText.trim_left kasane_mcp.GoText.trim_right kasane_mcp.Server.Http.reply
    kasane_mcp.Server.Limiter.make_room kasane_mcp.Server.Limiter.put
    kasane_mcp.Server.Limiter.sweep kasane_mcp.Table.find_row kasane_mcp.Table.modify
    kasane_mcp.Tx.exec kasane_mcp.Tx.pure kasane_mcp.Tx.query kasane_mcp.Tx.raise
    kasane_mcp.Tx.statement kasane_mcp.Tx.transact kasane_mcp.Tx.◌>>=◌
owner_run = refl

owner-Accepts_example : Accepts crypto url 6 browser logged_in (browser_identity (row, account))
owner-Accepts_example =
    owner-Accepts crypto url 6 browser logged_in [] 200 (browser_identity (row, account)) owner_run

logout_run : (logout crypto token logged_in []).0 ≡ Reply.answered 200 tt
unfolding logout kasane_mcp.Server.Http.reply kasane_mcp.Tx.run
logout_run = refl

logout-owner_example :
    owner crypto url 6 browser (logout crypto token logged_in []).1 []
    ≢ Reply.answered 200 (browser_identity (row, account))
logout-owner_example =
    logout-owner crypto url token logged_in [] [] 6 browser 200 200
      (browser_identity (row, account)) logout_run refl

-- A workspace with two keys.
abbrev placed : Db
placed = (create_workspace 5 (some home) (b'p' ∷ []) Run.empty_db []).1

abbrev request : NewKey
request = record {
  name = b'n' ∷ [];
  scope = "read";
  access_mode = "";
  workspace_ids = [];
  can_create_workspaces = false;
}

abbrev first : Str
first = b'1' ∷ []

abbrev second : Str
second = b'2' ∷ []

abbrev one_key : Db
one_key = (create_key crypto env 5 note_id first home request placed []).1

abbrev two_keys : Db
two_keys = (create_key crypto env 5 other_id second home request one_key []).1

abbrev run_keys : Run.Reach crypto env parse two_keys
run_keys =
    Run.Reach.step
      (Run.Reach.step
        (Run.Reach.step Run.Reach.start (Run.Step.creates_workspace 5 (some home) (b'p' ∷ []) []))
        (Run.Step.creates_key 5 note_id first home request []))
      (Run.Step.creates_key 5 other_id second home request [])

create_run :
    (create_key crypto env 5 note_id first home request placed []).0 ≡ Reply.answered 201 tt
unfolding create_key kasane_mcp.Accounts.Keys.bad_name normalized kasane_mcp.GoText.trim_space
    kasane_mcp.GoText.is_space kasane_mcp.GoText.len kasane_mcp.Accounts.Keys.bad_mode
    kasane_mcp.Accounts.Keys.create_granted kasane_mcp.Accounts.Keys.key_grants
    kasane_mcp.Server.Http.reply kasane_mcp.Tx.transact kasane_mcp.Accounts.Keys.check_grants_tx
    kasane_mcp.Accounts.Keys.uuid_tx kasane_mcp.Accounts.Keys.insert_key lookup create_workspace
    kasane_mcp.Accounts.Workspaces.create_with kasane_mcp.Accounts.Keys.collect_grants
    kasane_mcp.Accounts.Keys.create_key_tx kasane_mcp.Accounts.Keys.has_grant
    kasane_mcp.Accounts.Keys.has_token kasane_mcp.Accounts.Keys.insert_grant
    kasane_mcp.Accounts.Keys.insert_grants_tx new_key kasane_mcp.Accounts.Keys.not_distinct
    kasane_mcp.Accounts.Keys.same_owner kasane_mcp.Accounts.Schema.insert_workspace
    kasane_mcp.Accounts.Workspaces.insert_returning kasane_mcp.Accounts.Workspaces.scan_workspace
    kasane_mcp.Core.Ids.all_hex kasane_mcp.Core.Ids.valid_id kasane_mcp.Core.Ids.without_dashes
    kasane_mcp.Core.Validation.member kasane_mcp.GoText.bytes kasane_mcp.GoText.keep_right
    kasane_mcp.GoText.rune_bytes kasane_mcp.GoText.to_lower kasane_mcp.GoText.trim_left
    kasane_mcp.GoText.trim_right str_eq kasane_mcp.Table.find_row kasane_mcp.Tx.exec
    kasane_mcp.Tx.pure kasane_mcp.Tx.query kasane_mcp.Tx.raise kasane_mcp.Tx.run
    kasane_mcp.Tx.statement kasane_mcp.Tx.◌>>=◌
create_run = refl

create_key-agent_example :
    (agent crypto url 6 [] (bearer ++ first) one_key []).0
    ≡ Reply.answered 200 (requested placed.workspaces note_id home request)
unfolding kasane_mcp.GoText.to_lower kasane_mcp.GoText.len
create_key-agent_example =
    create_key-agent crypto env url 5 6 note_id first home home request placed [] 201 refl
      create_run (omega arith)

abbrev answer : Identity
answer =
    agent_identity placed.workspaces other_id (new_key crypto 5 second home (normalized request))

agent_run : (agent crypto url 6 [] (bearer ++ second) two_keys []).0 ≡ Reply.answered 200 answer
unfolding agent kasane_mcp.Accounts.Keys.has_prefix kasane_mcp.GoText.len
    kasane_mcp.Accounts.Keys.agent_found kasane_mcp.Tx.run kasane_mcp.Accounts.Keys.use_key
    kasane_mcp.Table.find_row create_key kasane_mcp.Accounts.Keys.bad_name normalized
    kasane_mcp.GoText.trim_space kasane_mcp.GoText.is_space kasane_mcp.Accounts.Keys.bad_mode
    kasane_mcp.Accounts.Keys.create_granted kasane_mcp.Accounts.Keys.key_grants
    kasane_mcp.Server.Http.reply kasane_mcp.Tx.transact agent_identity
    kasane_mcp.Accounts.Keys.check_grants_tx kasane_mcp.Accounts.Keys.collect_grants
    kasane_mcp.Accounts.Keys.create_key_tx kasane_mcp.Accounts.Keys.has_grant
    kasane_mcp.Accounts.Keys.has_token kasane_mcp.Accounts.Keys.insert_grant
    kasane_mcp.Accounts.Keys.insert_grants_tx kasane_mcp.Accounts.Keys.insert_key new_key
    kasane_mcp.Accounts.Keys.not_distinct kasane_mcp.Accounts.Keys.same_owner
    kasane_mcp.Accounts.Keys.usable kasane_mcp.Accounts.Keys.uuid_tx
    kasane_mcp.Accounts.Login.valid_origin kasane_mcp.Core.Ids.all_hex kasane_mcp.Core.Ids.valid_id
    kasane_mcp.Core.Ids.without_dashes kasane_mcp.Core.Validation.member kasane_mcp.GoText.bytes
    kasane_mcp.GoText.keep_right kasane_mcp.GoText.rune_bytes kasane_mcp.GoText.to_lower
    kasane_mcp.GoText.trim_left kasane_mcp.GoText.trim_right str_eq lookup kasane_mcp.Table.modify
    kasane_mcp.Tx.exec kasane_mcp.Tx.pure kasane_mcp.Tx.query kasane_mcp.Tx.raise
    kasane_mcp.Tx.statement kasane_mcp.Tx.◌>>=◌ create_workspace
    kasane_mcp.Accounts.Workspaces.create_with kasane_mcp.Accounts.Workspaces.insert_returning
    kasane_mcp.Accounts.Schema.insert_workspace
agent_run = refl

agent-Authentic_example :
    Authentic crypto
      (bearer ++ second)
      two_keys
      (agent crypto url 6 [] (bearer ++ second) two_keys []).1
      6
      answer
agent-Authentic_example =
    agent-Authentic crypto url 6 [] (bearer ++ second) two_keys [] 200 answer agent_run

abbrev revoked : Db
revoked = (revoke_key env 7 home note_id two_keys []).1

revoke_run : (revoke_key env 7 home note_id two_keys []).0 ≡ Reply.answered 200 tt
unfolding revoke_key kasane_mcp.Core.Ids.valid_id kasane_mcp.Server.Http.reply kasane_mcp.Tx.run
    kasane_mcp.Accounts.Keys.uuid_tx
revoke_run = refl

key_run : lookup note_id two_keys.keys ≡ some (new_key crypto 5 first home (normalized request))
unfolding lookup create_key kasane_mcp.Accounts.Keys.bad_name normalized
    kasane_mcp.GoText.trim_space kasane_mcp.GoText.is_space kasane_mcp.GoText.len
    kasane_mcp.Accounts.Keys.bad_mode kasane_mcp.Accounts.Keys.create_granted
    kasane_mcp.Accounts.Keys.key_grants kasane_mcp.Server.Http.reply kasane_mcp.Tx.transact
    kasane_mcp.Accounts.Keys.check_grants_tx kasane_mcp.Accounts.Keys.uuid_tx
    kasane_mcp.Accounts.Keys.insert_key create_workspace kasane_mcp.Accounts.Workspaces.create_with
    kasane_mcp.Accounts.Keys.collect_grants kasane_mcp.Accounts.Keys.create_key_tx
    kasane_mcp.Accounts.Keys.has_grant kasane_mcp.Accounts.Keys.has_token
    kasane_mcp.Accounts.Keys.insert_grant kasane_mcp.Accounts.Keys.insert_grants_tx new_key
    kasane_mcp.Accounts.Keys.not_distinct kasane_mcp.Accounts.Keys.same_owner
    kasane_mcp.Accounts.Schema.insert_workspace kasane_mcp.Accounts.Workspaces.insert_returning
    kasane_mcp.Accounts.Workspaces.scan_workspace kasane_mcp.Core.Ids.all_hex
    kasane_mcp.Core.Ids.valid_id kasane_mcp.Core.Ids.without_dashes
    kasane_mcp.Core.Validation.member kasane_mcp.GoText.bytes kasane_mcp.GoText.keep_right
    kasane_mcp.GoText.rune_bytes kasane_mcp.GoText.to_lower kasane_mcp.GoText.trim_left
    kasane_mcp.GoText.trim_right str_eq kasane_mcp.Table.find_row kasane_mcp.Tx.exec
    kasane_mcp.Tx.pure kasane_mcp.Tx.query kasane_mcp.Tx.raise kasane_mcp.Tx.run
    kasane_mcp.Tx.statement kasane_mcp.Tx.◌>>=◌
key_run = refl

still_run : (agent crypto url 8 [] (bearer ++ second) revoked []).0 ≡ Reply.answered 200 answer
unfolding agent kasane_mcp.Accounts.Keys.has_prefix kasane_mcp.GoText.len
    kasane_mcp.Accounts.Keys.agent_found kasane_mcp.Tx.run kasane_mcp.Accounts.Keys.use_key
    kasane_mcp.Table.find_row revoke_key kasane_mcp.Core.Ids.valid_id kasane_mcp.Server.Http.reply
    kasane_mcp.Accounts.Keys.uuid_tx kasane_mcp.Table.modify create_key
    kasane_mcp.Accounts.Keys.bad_name normalized kasane_mcp.GoText.trim_space
    kasane_mcp.GoText.is_space agent_identity kasane_mcp.Accounts.Keys.bad_mode
    kasane_mcp.Accounts.Keys.check_grants_tx kasane_mcp.Accounts.Keys.collect_grants
    kasane_mcp.Accounts.Keys.create_granted kasane_mcp.Accounts.Keys.create_key_tx
    kasane_mcp.Accounts.Keys.has_grant kasane_mcp.Accounts.Keys.has_token
    kasane_mcp.Accounts.Keys.insert_grant kasane_mcp.Accounts.Keys.insert_grants_tx
    kasane_mcp.Accounts.Keys.insert_key kasane_mcp.Accounts.Keys.key_grants new_key
    kasane_mcp.Accounts.Keys.not_distinct kasane_mcp.Accounts.Keys.revoked_key
    kasane_mcp.Accounts.Keys.same_owner kasane_mcp.Accounts.Keys.usable
    kasane_mcp.Accounts.Login.valid_origin kasane_mcp.Core.Ids.all_hex
    kasane_mcp.Core.Ids.without_dashes kasane_mcp.Core.Validation.member kasane_mcp.GoText.bytes
    kasane_mcp.GoText.keep_right kasane_mcp.GoText.rune_bytes kasane_mcp.GoText.to_lower
    kasane_mcp.GoText.trim_left kasane_mcp.GoText.trim_right str_eq lookup kasane_mcp.Tx.exec
    kasane_mcp.Tx.pure kasane_mcp.Tx.query kasane_mcp.Tx.raise kasane_mcp.Tx.statement
    kasane_mcp.Tx.transact kasane_mcp.Tx.◌>>=◌ create_workspace
    kasane_mcp.Accounts.Workspaces.create_with kasane_mcp.Accounts.Workspaces.insert_returning
    kasane_mcp.Accounts.Schema.insert_workspace
still_run = refl

revoke_key-agent_example : answer.key_id ≢ note_id
unfolding new_key kasane_mcp.GoText.to_lower
revoke_key-agent_example =
    revoke_key-agent crypto env url 7 8 home note_id note_id [] (bearer ++ second)
      (new_key crypto 5 first home (normalized request)) two_keys [] [] 200 200 answer
      (Run.accounts-IsSound run_keys) refl key_run refl revoke_run still_run
