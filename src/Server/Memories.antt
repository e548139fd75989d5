-- ===== src/Server/Memories.antt =====
-- The handlers of the memories, the status, the index and the administrators in
-- internal/server/app.go, over the store and the search service.
use text.Mathlib.Text.{◌==◌ as text_eq}
use kasane_mcp.Prelude.{
  ℕ, ◌++◌, Bool, not, Option, none, some, Str, String, str_eq, ℤ, pos, if◌then◌else◌, Result, ok,
  err, ◌∷◌, [],
}
use kasane_mcp.Tx.{Faults}
use kasane_mcp.Core.Types.{Memory, RememberInput, SearchResult}
use kasane_mcp.Core.Validation.{is_empty}
use kasane_mcp.Search.{Repository, Index, search}
use kasane_mcp.Store.Schema.{Env, Db}
use kasane_mcp.Store.Remember.{remember}
use kasane_mcp.Store.Records.{get, forget, rehydrate}
use kasane_mcp.Store.Worker.{reindex}
use kasane_mcp.Store.Lists.{FullText, Stats, list, stats_for}
use kasane_mcp.Server.Http.{Reply, reply}
use kasane_mcp.Server.Access.{Identity}

-- The store as the repository of the search service; `counted` and `seen` are the tables that the
-- earlier statements of a list and of a rehydration see.
unfoldable pub repository : Env → FullText → Db → (ℕ → Db) → Db → Faults → Repository
repository env ft counted seen db fs = record {
  list = λ ws in'. (list env ft ws in' counted db fs).0;
  rehydrate = λ ws hits. (rehydrate env ws seen hits db fs).0;
}

-- `App.memories` on POST, with the decoded body.
unfoldable pub post_memory :
    Env → ℕ → Option Str → Str → Option RememberInput → Db → Faults → Reply Memory × Db
post_memory env now fresh ws none db fs = (Reply.failed 400, db)
post_memory env now fresh ws (some in') db fs =
    if not (is_empty in'.id)
    then (Reply.failed 400, db)
    else reply 201 (remember env now fresh ws in' db fs)

-- The query of a list: a number is there or not, and strconv.Atoi may not read it.
pub record ListQuery : Type 0 where
  pub query : Str
  pub tag : Str
  pub kind : String
  pub limit : Option (Option ℤ)
  pub offset : Option (Option ℤ)

abbrev number_or : ℤ → Option (Option ℤ) → Option ℤ
number_or d none = some d
number_or d (some n) = n

searched :
    Env → Repository → Index → Str → ListQuery → Option ℤ → Option ℤ → Db → Reply SearchResult × Db
searched env repo index ws q none offset db = (Reply.failed 400, db)
searched env repo index ws q (some limit) none db = (Reply.failed 400, db)
searched env repo index ws q (some limit) (some offset) db = reply 200 (
  search env.unicode repo index ws
      (record { kind = q.kind; query = q.query; tag = q.tag; limit = limit; offset = offset }),
  db,
)

-- `App.memories` on GET.
unfoldable pub get_memories :
    Env → FullText → Index → Str → ListQuery → Db → (ℕ → Db) → Db → Faults → Reply SearchResult × Db
unfolding searched
get_memories env ft index ws q counted seen db fs =
    searched env (repository env ft counted seen db fs) index ws q (number_or (pos 50) q.limit)
      (number_or (pos 0) q.offset) db

-- `App.memory` on GET, PUT and DELETE.
unfoldable pub get_memory : Env → Str → Str → Db → Faults → Reply Memory × Db
get_memory env ws id db fs = reply 200 (get env ws id db fs)

unfoldable pub put_memory :
    Env → ℕ → Option Str → Str → Str → Option RememberInput → Db → Faults → Reply Memory × Db
put_memory env now fresh ws id none db fs = (Reply.failed 400, db)
put_memory env now fresh ws id (some in') db fs =
    reply 200 (remember env now fresh ws (record in' { id = id }) db fs)

unfoldable pub delete_memory : Env → ℕ → Str → Str → Db → Faults → Reply (Unit {0}) × Db
delete_memory env now ws id db fs = reply 200 (forget env now ws id db fs)

-- POST /api/v1/workspaces/{workspace}/reindex
unfoldable pub post_reindex : Env → ℕ → Str → Db → Db → Faults → Reply (Unit {0}) × Db
post_reindex env now ws seen db fs = reply 200 (reindex env now ws seen db fs)

pub record Status : Type 0 where
  pub qdrant : String
  pub stats : Stats

described : Bool → Result Stats × Db → Result Status × Db
described healthy (err e, db) = (err e, db)
described healthy (ok stats, db) =
    (ok (record { qdrant = if healthy then "ready" else "unavailable"; stats = stats }), db)

-- `App.status`; `healthy` says whether there is an index and its health check passes.
unfoldable pub status : Bool → Identity → Db → Faults → Reply Status × Db
unfolding described
status healthy id db fs = reply 200 (described healthy (stats_for id.username db fs))

-- `App.mcpEndpoint`; `host` is the host that url.Parse reads.
unfoldable pub mcp_endpoint : (Str → Str) → Str → Str → Str
mcp_endpoint host mcp_url public_url =
    if not (str_eq (host mcp_url) (host public_url))
    then mcp_url
    else mcp_url ++ b'/' ∷ b'm' ∷ b'c' ∷ b'p' ∷ []

-- The handlers of an administrator.
unfoldable pub admin_only : {A S : Type 0} → Identity → S → Reply A × S → Reply A × S
admin_only id s handler = if not (text_eq id.role "admin") then (Reply.failed 403, s) else handler
