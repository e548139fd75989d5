-- ===== src/Accounts/Keys.antt =====
-- Agent keys: `App.agent` and `App.keys` of internal/server/security.go, behind the check of the
-- workspace in internal/server/app.go and `WorkspaceOwned` of internal/store/tenancy.go.
use text.Mathlib.Text.{◌==◌ as text_eq}
use kasane_mcp.Prelude.{
  ℕ, Bool, true, false, ◌&&◌, ◌||◌, not, List, [], ◌∷◌, ◌++◌, Option, none, some, Str, String,
  str_eq, ltb, is_some, length, take, drop, ◌==◌, if◌then◌else◌, Result, ok, err, invalid,
  unavailable,
}
use kasane_mcp.GoText.{len, trim_space, to_lower}
use kasane_mcp.Table.{Table, lookup, modify, find_row}
use kasane_mcp.Tx.{Tx, Faults, pure, raise, statement, query, exec, ◌>>=◌, ◌>>◌, transact, run}
use kasane_mcp.Core.Ids.{valid_id, valid_uuid}
use kasane_mcp.Core.Validation.{is_empty, member}
use kasane_mcp.Store.Schema.{Env, WorkspaceRow}
use kasane_mcp.Server.Http.{Reply, reply}
use kasane_mcp.Server.Access.{Identity}
use kasane_mcp.Accounts.Schema.{KeyRow, Db}
use kasane_mcp.Accounts.Login.{Crypto, valid_origin}

-- A text in a uuid position.
unfoldable pub uuid_tx : {A : Type 0} → Option Str → (Str → Tx Db A) → Tx Db A
uuid_tx none k = raise unavailable
uuid_tx (some id) k = k id

-- "Bearer "
abbrev pub bearer : Str
bearer = b'B' ∷ b'e' ∷ b'a' ∷ b'r' ∷ b'e' ∷ b'r' ∷ b' ' ∷ []

unfoldable pub has_prefix : Str → Str → Bool
has_prefix [] s = true
has_prefix (c ∷ p) [] = false
has_prefix (c ∷ p) (d ∷ s) = c == d && has_prefix p s

-- token_hash=$1 AND revoked_at IS NULL
unfoldable pub usable : Str → KeyRow → Bool
usable token_hash key = str_eq key.token_hash token_hash && not (is_some key.revoked_at)

abbrev pub owner_of : Option WorkspaceRow → Option Str
owner_of none = none
owner_of (some row) = row.owner_username

abbrev or_empty : Option Str → Str
or_empty none = []
or_empty (some s) = s

unfoldable pub agent_identity : Table WorkspaceRow → Str → KeyRow → Identity
agent_identity workspaces id key = record {
  username = or_empty (owner_of (lookup key.workspace_id workspaces));
  csrf = [];
  workspace = key.workspace_id;
  scope = key.scope;
  key_id = id;
  access_mode = key.access_mode;
  role = "";
  can_create_workspaces = key.can_create_workspaces;
}

abbrev pub used_key : ℕ → KeyRow → KeyRow
used_key now key = record key { last_used_at = some now }

-- UPDATE agent_keys SET last_used_at=now() … RETURNING …
unfoldable pub use_key : ℕ → Str → Db → Option Identity × Db
use_key now token_hash db = elim (find_row (usable token_hash) db.keys) [
  | none ↦ (none, db)
  | some (id, key) ↦ (
    some (agent_identity db.workspaces id key),
    record db { keys = modify id (used_key now) db.keys },
  )
]

unfoldable pub agent_found : Result (Option Identity) × Db → Reply Identity × Db
agent_found (err e, db) = (Reply.failed 503, db)
agent_found (ok none, db) = (Reply.failed 401, db)
agent_found (ok (some id), db) = (Reply.answered 200 id, db)

-- `App.agent`: a refusal, or the identity that is handed to the tools.
unfoldable pub agent : Crypto → Str → ℕ → Str → Str → Db → Faults → Reply Identity × Db
agent crypto mcp_url now origin auth db fs =
    if not (is_empty origin) && not (valid_origin origin mcp_url)
    then (Reply.failed 403, db)
    else if not (has_prefix bearer auth) || ltb 160 (len auth)
    then (Reply.failed 401, db)
    else agent_found
        (run (statement (λ (db : Db). ok (use_key now (crypto.hash_token (drop 7 auth)) db))) db fs)

pub record NewKey : Type 0 where
  pub name : Str
  pub scope : String
  pub access_mode : String
  pub workspace_ids : List Str
  pub can_create_workspaces : Bool

-- The name trimmed, and "single" for an empty mode.
unfoldable pub normalized : NewKey → NewKey
normalized raw = record raw {
  name = trim_space raw.name;
  access_mode = if text_eq raw.access_mode "" then "single" else raw.access_mode;
}

unfoldable pub bad_name : NewKey → Bool
bad_name in' =
    is_empty in'.name
    || ltb 120 (len in'.name)
    || (not (text_eq in'.scope "read") && not (text_eq in'.scope "write"))

unfoldable pub bad_mode : NewKey → Bool
bad_mode in' =
    (not (text_eq in'.access_mode "single")
      && not (text_eq in'.access_mode "selected")
      && not (text_eq in'.access_mode "all"))
    || (in'.can_create_workspaces
        && (not (text_eq in'.scope "write") || text_eq in'.access_mode "single"))
    || (not (text_eq in'.access_mode "selected") && ltb 0 (length in'.workspace_ids))
    || ltb 500 (length in'.workspace_ids)

-- The loop over the IDs, with the grants so far, which are those seen.
unfoldable pub collect_grants : Env → List Str → List Str → Result (List Str)
collect_grants env grants [] = ok grants
collect_grants env grants (raw ∷ rest) =
    let ws = to_lower env.unicode raw in
    let kept = collect_grants env (grants ++ ws ∷ []) rest in
    let skipped = collect_grants env grants rest in
    if not (valid_id raw) then err invalid else if not (member ws grants) then kept else skipped

unfoldable pub key_grants : Env → Str → NewKey → Result (List Str)
key_grants env home in' =
    if text_eq in'.access_mode "selected"
    then collect_grants env (home ∷ []) in'.workspace_ids
    else ok []

-- owner_username IS NOT DISTINCT FROM …
unfoldable pub not_distinct : Option Str → Option Str → Bool
not_distinct none none = true
not_distinct none (some b) = false
not_distinct (some a) none = false
not_distinct (some a) (some b) = str_eq a b

abbrev pub owned_alike : Option WorkspaceRow → Option WorkspaceRow → Bool
owned_alike none home = false
owned_alike (some row) home = not_distinct row.owner_username (owner_of home)

-- Whether the first workspace is there and has the owner of the second one.
unfoldable pub same_owner : Str → Str → Db → Bool
same_owner w home db = owned_alike (lookup w db.workspaces) (lookup home db.workspaces)

unfoldable pub check_grants_tx : Env → Str → List Str → Tx Db (Unit {0})
check_grants_tx env home [] = pure tt
check_grants_tx env home (ws ∷ rest) = uuid_tx (env.uuid ws) (λ w. uuid_tx (env.uuid home) (λ h. do
  exists ← query (same_owner w h)
  if not exists then raise invalid else check_grants_tx env home rest))

unfoldable pub has_token : Str → KeyRow → Bool
has_token token_hash key = str_eq key.token_hash token_hash

-- INSERT INTO agent_keys(…): the ID and the token's hash are unique, the workspace is there.
unfoldable pub insert_key : Str → KeyRow → Db → Result (Unit {0} × Db)
insert_key id key db =
    if is_some (lookup id db.keys)
      || is_some (find_row (has_token key.token_hash) db.keys)
      || not (is_some (lookup key.workspace_id db.workspaces))
    then err unavailable
    else ok (tt, record db { keys = (id, key) ∷ db.keys })

unfoldable pub has_grant : Str → Str → List (Str × Str) → Bool
has_grant key w [] = false
has_grant key w ((k, v) ∷ gs) = (str_eq k key && str_eq v w) || has_grant key w gs

-- INSERT INTO agent_key_workspaces(…)
unfoldable pub insert_grant : Str → Str → Db → Result (Unit {0} × Db)
insert_grant key w db =
    if has_grant key w db.grants || not (is_some (lookup w db.workspaces))
    then err unavailable
    else ok (tt, record db { grants = (key, w) ∷ db.grants })

unfoldable pub insert_grants_tx : Env → Str → List Str → Tx Db (Unit {0})
insert_grants_tx env key [] = pure tt
insert_grants_tx env key (ws ∷ rest) =
    uuid_tx (env.uuid ws) (λ w. do statement (insert_grant key w); insert_grants_tx env key rest)

unfoldable pub new_key : Crypto → ℕ → Str → Str → NewKey → KeyRow
new_key crypto now token w in' = record {
  workspace_id = w;
  name = in'.name;
  prefix = take 11 token;
  token_hash = crypto.hash_token token;
  scope = in'.scope;
  access_mode = in'.access_mode;
  can_create_workspaces = in'.can_create_workspaces;
  created_at = now;
  last_used_at = none;
  revoked_at = none;
}

unfoldable pub create_key_tx :
    Crypto → Env → ℕ → Str → Str → Str → NewKey → List Str → Tx Db (Unit {0})
create_key_tx crypto env now id token home in' grants = do
  check_grants_tx env home grants
  uuid_tx (env.uuid home) (λ w. statement (insert_key id (new_key crypto now token w in')))
  insert_grants_tx env id grants

unfoldable pub create_granted :
    Crypto
    → Env
    → ℕ
    → Str
    → Str
    → Str
    → NewKey
    → Db
    → Faults
    → Result (List Str)
    → Reply (Unit {0}) × Db
unfolding create_key_tx
create_granted crypto env now id token home in' db fs (err e) = (Reply.failed 400, db)
create_granted crypto env now id token home in' db fs (ok grants) =
    reply 201 (transact (create_key_tx crypto env now id token home in' grants) db fs)

-- `App.keys` on POST, with the decoded body, the ID and the token ("ks_…") that are drawn, and the
-- workspace of the path.
unfoldable pub create_key :
    Crypto → Env → ℕ → Str → Str → Str → NewKey → Db → Faults → Reply (Unit {0}) × Db
create_key crypto env now id token path raw db fs =
    let home = to_lower env.unicode path in
    let in' = normalized raw in
    if bad_name in'
    then (Reply.failed 400, db)
    else if bad_mode in'
    then (Reply.failed 400, db)
    else create_granted crypto env now id token home in' db fs (key_grants env home in')

-- WHERE id=$1 AND workspace_id=$2 AND revoked_at IS NULL
unfoldable pub revoked_key : ℕ → Str → KeyRow → KeyRow
revoked_key now w key =
    if str_eq key.workspace_id w && not (is_some key.revoked_at)
    then record key { revoked_at = some now }
    else key

-- `App.keys` on DELETE.
unfoldable pub revoke_key : Env → ℕ → Str → Str → Db → Faults → Reply (Unit {0}) × Db
revoke_key env now path id db fs =
    if not (valid_id id)
    then (Reply.failed 400, db)
    else reply 200 (
        run
          (uuid_tx (env.uuid id) (λ i.
            uuid_tx (env.uuid (to_lower env.unicode path))
              (λ w. exec (λ (db : Db). record db { keys = modify i (revoked_key now w) db.keys }))))
          db fs)

-- `Store.WorkspaceOwned`
unfoldable pub owned_by : Str → Option WorkspaceRow → Bool
owned_by username none = false
owned_by username (some row) = elim row.owner_username [ none ↦ false | some o ↦ str_eq o username ]

unfoldable pub workspace_owned : Env → Str → Str → Db → Faults → Result Bool × Db
workspace_owned env ws username db fs =
    if not (valid_uuid ws)
    then (err invalid, db)
    else run
        (uuid_tx (env.uuid ws)
          (λ w. query (λ (db : Db). owned_by username (lookup w db.workspaces))))
        db fs

for_owned : {A : Type 0} → Db → Result Bool × Db → Reply A × Db → Reply A × Db
for_owned db (err e, s) handler = reply 200 (err e, db)
for_owned db (ok false, s) handler = (Reply.failed 404, db)
for_owned db (ok true, s) handler = handler

-- The handlers of a workspace: `handler` is what follows on the tables as they are.
unfoldable pub on_workspace :
    {A : Type 0} → Env → Str → Identity → Db → Faults → Reply A × Db → Reply A × Db
unfolding for_owned
on_workspace env path id db fs handler =
    if not (valid_id path)
    then (Reply.failed 400, db)
    else for_owned db (workspace_owned env path id.username db fs) handler
