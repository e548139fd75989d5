-- ===== src/Store/Lists.antt =====
-- Lists and statistics: `List`, `ListFor`, `listWhere`, `Profile`, `Stats` of
-- internal/store/store.go and `StatsFor` of internal/store/tenancy.go.
pub mod Rows
pub mod Pages
pub mod Profiles
use text.Mathlib.Text.{◌==◌ as text_eq}
use kasane_mcp.Prelude.{
  ℕ, ◌+◌, Bool, true, false, ◌&&◌, ◌||◌, not, List, [], ◌∷◌, map, Option, none, some, Str, str_eq,
  ltb, ◌==◌, length, take, drop, pos_part, if◌then◌else◌, Result, ok, err,
}
use kasane_mcp.Table.{Table, lookup}
use kasane_mcp.Tx.{Tx, Faults, pure, query, ◌>>=◌, run}
use kasane_mcp.Core.Types.{Memory, SearchInput, SearchResult}
use kasane_mcp.Core.Validation.{is_empty, member, validate_search}
use kasane_mcp.Store.Schema.{
  Env, Db, MemoryRow, JobRow, WorkspaceRow, scan_memory, in_profile, cast_tx,
}

-- What PostgreSQL decides: whether a row's search_vector matches a query, whether the first row ranks
-- higher for it, the order of IDs, and the order of profile rows (ORDER BY kind,title,id).
pub record FullText : Type 0 where
  pub matches : Str → MemoryRow → Bool
  pub ranks : Str → MemoryRow → MemoryRow → Bool
  pub before : Str → Str → Bool
  pub profile_before : Str × MemoryRow → Str × MemoryRow → Bool

insert_by : {A : Type 0} → (A → A → Bool) → A → List A → List A
insert_by less a [] = a ∷ []
insert_by less a (b ∷ xs) =
    let rest = insert_by less a xs in if less a b then a ∷ b ∷ xs else b ∷ rest

-- ORDER BY
unfoldable pub sort_by : {A : Type 0} → (A → A → Bool) → List A → List A
unfolding insert_by
sort_by less [] = []
sort_by less (a ∷ xs) = insert_by less a (sort_by less xs)

-- WHERE
unfoldable pub rows_where : (MemoryRow → Bool) → Table MemoryRow → List (Str × MemoryRow)
rows_where p [] = []
rows_where p ((id, row) ∷ t) = let rest = rows_where p t in if p row then (id, row) ∷ rest else rest

-- The conditions on the kind, the tag and the query.
unfoldable pub wanted : FullText → SearchInput → MemoryRow → Bool
wanted ft in' row =
    (text_eq in'.kind "" || text_eq row.kind in'.kind)
    && (is_empty in'.tag || member in'.tag row.tags)
    && (is_empty in'.query || ft.matches in'.query row)

-- updated_at DESC,id DESC
newer : FullText → Str × MemoryRow → Str × MemoryRow → Bool
newer ft a b =
    ltb b.1.updated_at a.1.updated_at || (a.1.updated_at == b.1.updated_at && ft.before b.0 a.0)

unfoldable pub precedes : FullText → SearchInput → Str × MemoryRow → Str × MemoryRow → Bool
unfolding newer
precedes ft in' a b =
    if is_empty in'.query
    then newer ft a b
    else ft.ranks in'.query a.1 b.1 || (not (ft.ranks in'.query b.1 a.1) && newer ft a b)

abbrev pub scan_row : Str × MemoryRow → Memory
scan_row (id, row) = scan_memory id row

-- LIMIT and OFFSET, which `Validate` has let through.
unfoldable pub page : FullText → SearchInput → List (Str × MemoryRow) → List Memory
page ft in' rows =
    map scan_row
      (take (pos_part in'.limit) (drop (pos_part in'.offset) (sort_by (precedes ft in') rows)))

-- The two SELECTs of `listWhere`, on the rows of the scope. They are two statements on the pool:
-- `counted` are the tables that the first one sees, and others may write before the second one.
unfoldable pub list_tx : FullText → (Db → MemoryRow → Bool) → SearchInput → Db → Tx Db SearchResult
list_tx ft scope in' counted = do
  total ←
      query
        (λ _. length (rows_where (λ row. scope counted row && wanted ft in' row) counted.memories))
  memories ←
      query (λ (db : Db).
        page ft in' (rows_where (λ row. scope db row && wanted ft in' row) db.memories))
  pure (record { memories = memories; degraded = false; total = total })

-- workspace_id=$1::uuid AND deleted=false
unfoldable pub in_workspace : Str → Db → MemoryRow → Bool
in_workspace w db row = str_eq row.workspace_id w && not row.deleted

owner_is : Str → Option WorkspaceRow → Bool
owner_is username none = false
owner_is username (some row) = elim row.owner_username [ none ↦ false | some o ↦ str_eq o username ]

-- workspace_id IN (SELECT id FROM workspaces WHERE owner_username=$1) AND deleted=false
unfoldable pub owned_by : Str → Db → MemoryRow → Bool
unfolding owner_is
owned_by username db row =
    owner_is username (lookup row.workspace_id db.workspaces) && not row.deleted

unfoldable pub list_valid :
    Result SearchInput → (SearchInput → Tx Db SearchResult) → Db → Faults → Result SearchResult × Db
list_valid (err e) body db fs = (err e, db)
list_valid (ok in') body db fs = run (body in') db fs

-- `Store.List`
unfoldable pub list :
    Env → FullText → Str → SearchInput → Db → Db → Faults → Result SearchResult × Db
list env ft ws raw counted =
    list_valid (validate_search env.unicode raw)
      (λ in'. do w ← cast_tx env ws; list_tx ft (in_workspace w) in' counted)

-- `Store.ListFor`
unfoldable pub list_for :
    Env → FullText → Str → SearchInput → Db → Db → Faults → Result SearchResult × Db
list_for env ft username raw counted =
    list_valid (validate_search env.unicode raw) (λ in'. list_tx ft (owned_by username) in' counted)

unfoldable pub profile_rows : FullText → Str → Db → List Memory
profile_rows ft w db =
    map scan_row (take 100 (sort_by ft.profile_before (rows_where (in_profile w) db.memories)))

-- `Store.Profile`
unfoldable pub profile : Env → FullText → Str → Db → Faults → Result (List Memory) × Db
profile env ft ws = run (do w ← cast_tx env ws; query (profile_rows ft w))

pub record Stats : Type 0 where
  pub pending_jobs : ℕ
  pub failed_jobs : ℕ
  pub memory_count : ℕ

unfoldable pub jobs_where : (Str → JobRow → Bool) → Table JobRow → ℕ
jobs_where p [] = 0
jobs_where p ((id, job) ∷ t) = if p id job then 1 + jobs_where p t else jobs_where p t

-- count(*) FILTER (WHERE attempts>=0),count(*) FILTER (WHERE attempts>0)
unfoldable pub outbox_counts : Db → ℕ × ℕ
outbox_counts db =
    (jobs_where (λ _ _. true) db.outbox, jobs_where (λ _ job. ltb 0 job.attempts) db.outbox)

-- `Store.Stats`; `counted` are the tables that the first of its two statements on the pool sees.
unfoldable pub stats : Db → Db → Faults → Result Stats × Db
stats counted = run (do
  jobs ← query (λ (_ : Db). outbox_counts counted)
  memories ← query (λ (db : Db). length (rows_where (λ row. not row.deleted) db.memories))
  pure (record { pending_jobs = jobs.0; failed_jobs = jobs.1; memory_count = memories }))

owned_memory : Str → Db → Option MemoryRow → Bool
owned_memory username db none = false
owned_memory username db (some row) = owner_is username (lookup row.workspace_id db.workspaces)

-- The three subqueries of `Store.StatsFor`.
unfoldable pub owner_stats : Str → Db → Stats
unfolding owned_memory owned_by
owner_stats username db = record {
  pending_jobs = jobs_where (λ id _. owned_memory username db (lookup id db.memories)) db.outbox;
  failed_jobs =
      jobs_where (λ id job. owned_memory username db (lookup id db.memories) && ltb 0 job.attempts)
        db.outbox;
  memory_count = length (rows_where (owned_by username db) db.memories);
}

-- `Store.StatsFor`
unfoldable pub stats_for : Str → Db → Faults → Result Stats × Db
stats_for username = run (query (owner_stats username))
