-- ===== src/Store/Lists/Pages.antt =====
-- The pages of `Store.List` and `Store.ListFor` (internal/store/store.go).
use kasane_mcp.Store.Lists.Rows.{
  All, All-take, All-drop, All-sort_by, All-rows_where, All-scanned, FromRow,
}
use kasane_mcp.Prelude.{
  ◌-◌, ◌≡◌, refl, sym, subst, ◌⊎◌, ◌↔◌, some, false, Option-cases, str_eq_iff, str_eq, str_eq_refl,
  ◌||◌, ap, ◌∙◌, Bool, true, ◌&&◌, List, [], ◌∷◌, Str, arith, length, length-map, length-take,
  length-drop, take, drop, inl, inr, Result, ok, min, pos_part, ok-cases,
}
use text.Mathlib.Text.{◌==◌ as text_eq}
use text.Mathlib.TextEquality.{eq_iff}
use kasane_mcp.Table.{Table, lookup, count}
use kasane_mcp.Tx.{Faults}
use kasane_mcp.Tx.Rules.{Sat, Sat-pure, Sat-query, run-ok}
use kasane_mcp.Core.Types.{SearchInput, SearchResult}
use kasane_mcp.Core.Validation.{is_empty, member, validate_search}
use kasane_mcp.Store.Schema.{Env, Db, MemoryRow, WorkspaceRow}
use kasane_mcp.Store.Lists.{
  FullText, sort_by, rows_where, wanted, precedes, scan_row, page, list_tx, owned_by, list_valid,
  list_for,
}
use kasane_mcp.Store.Lists.Profiles.{length-sort_by, length-rows_where}

-- A page of the rows with a property: the total is that of the tables that were counted, the page
-- that of the tables a statement later.
pub record Page (p : Db → MemoryRow → Bool) (in' : SearchInput) (counted db : Db)
    (out : SearchResult) : Type 0 where
  pub total_eq : out.total ≡ count (p counted) counted.memories
  pub length_eq :
      length out.memories
      ≡ min (pos_part in'.limit) (count (p db) db.memories - pos_part in'.offset)
  pub rows : All (FromRow (p db) db.memories) out.memories

length-page :
    (ft : FullText) (in' : SearchInput) (rows : List (Str × MemoryRow))
    → length (page ft in' rows) ≡ min (pos_part in'.limit) (length rows - pos_part in'.offset)
unfolding page
length-page ft in' rows =
    let sorted = sort_by (precedes ft in') rows in
    omega (
      arith,
      length-map (take (pos_part in'.limit) (drop (pos_part in'.offset) sorted)) scan_row,
      length-take (pos_part in'.limit) (drop (pos_part in'.offset) sorted),
      length-drop (pos_part in'.offset) sorted,
      length-sort_by (precedes ft in') rows,
    )

page-rows :
    (ft : FullText) (in' : SearchInput) (p : MemoryRow → Bool) (t : Table MemoryRow)
    → All (FromRow p t) (page ft in' (rows_where p t))
unfolding page
page-rows ft in' p t =
    All-scanned p t _
      (All-take _ _ _ (All-drop _ _ _ (All-sort_by _ (precedes ft in') _ (All-rows_where p t))))

-- The rows that a list with this scope and input is about.
abbrev listed : FullText → (Db → MemoryRow → Bool) → SearchInput → Db → MemoryRow → Bool
listed ft scope in' db row = scope db row && wanted ft in' row

list_tx-Page :
    (ft : FullText) (scope : Db → MemoryRow → Bool) (in' : SearchInput) (counted db : Db)
    → Sat (list_tx ft scope in' counted) db (λ out _. Page (listed ft scope in') in' counted db out)
unfolding list_tx
list_tx-Page ft scope in' counted db =
    let p = listed ft scope in' in
    Sat-query _ _ db (
      Sat-query _ _ db (
        Sat-pure _ db (record {
          total_eq = length-rows_where (p counted) counted.memories;
          length_eq =
              rw (sym (length-rows_where (p db) db.memories))
                (length-page ft in' (rows_where (p db) db.memories));
          rows = page-rows ft in' (p db) db.memories;
        })))

-- A memory that is not deleted, in a workspace of the account, of the kind, the tag and the query
-- that are asked for, where they are.
pub record Wanted (ft : FullText) (username : Str) (in' : SearchInput) (db : Db) (row : MemoryRow)
    : Type 0 where
  pub owned :
      (ws : WorkspaceRow) × (lookup row.workspace_id db.workspaces ≡ some ws)
      × (ws.owner_username ≡ some username)
  pub alive : row.deleted ≡ false
  pub kind : (in'.kind ≡ "") ⊎ (row.kind ≡ in'.kind)
  pub tag : (in'.tag ≡ []) ⊎ (member in'.tag row.tags ≡ true)
  pub query : (in'.query ≡ []) ⊎ (ft.matches in'.query row ≡ true)

owned_by-workspace :
    (username : Str) (db : Db) (row : MemoryRow)
    → owned_by username db row ≡ true
    → (ws : WorkspaceRow) × (lookup row.workspace_id db.workspaces ≡ some ws)
      × (ws.owner_username ≡ some username)
unfolding owned_by
owned_by-workspace username db row h = elim (Option-cases (lookup row.workspace_id db.workspaces)) [
  | inl none' ↦ absurd (ground arith)
  | inr (ws, e) ↦ elim (Option-cases ws.owner_username) [
    | inl nobody ↦ absurd (ground arith)
    | inr (o, name) ↦
        let owner : str_eq o username ≡ true = ground arith in
        (ws, e, name ∙ ap some ((str_eq_iff o username).0 owner))
  ]
]

owned_by-held :
    (username : Str) (db : Db) (row : MemoryRow) (ws : WorkspaceRow)
    → lookup row.workspace_id db.workspaces ≡ some ws
    → ws.owner_username ≡ some username
    → row.deleted ≡ false
    → owned_by username db row ≡ true
unfolding owned_by
owned_by-held username db row ws there owner alive =
    rw (there, owner, alive) (rw (str_eq_refl username) refl)

is_empty_iff : (s : Str) → (is_empty s ≡ true) ↔ (s ≡ [])
is_empty_iff [] = (λ _. refl, λ _. refl)
is_empty_iff (c ∷ s) = (λ h. absurd (cc h), λ h. absurd (cc h))

-- A condition that is only asked for where it is set.
either-true : {A : Type 0} (b c : Bool) → ((b ≡ true) → A) → (b || c) ≡ true → A ⊎ (c ≡ true)
either-true true c f h = inl (f refl)
either-true false c f h = inr h

listed-Wanted :
    (ft : FullText) (username : Str) (in' : SearchInput) (db : Db) (row : MemoryRow)
    → (listed ft (owned_by username) in' db row ≡ true) ↔ Wanted ft username in' db row
unfolding wanted
listed-Wanted ft username in' db row = (
  λ h. record {
    owned = owned_by-workspace username db row (ground arith);
    alive = unfold owned_by in ground arith;
    kind =
        elim (either-true (text_eq in'.kind "") (text_eq row.kind in'.kind) (eq_iff in'.kind "").0
          (ground arith)) [ inl e ↦ inl e | inr e ↦ inr ((eq_iff row.kind in'.kind).0 e) ];
    tag = either-true (is_empty in'.tag) _ (is_empty_iff in'.tag).0 (ground arith);
    query = either-true (is_empty in'.query) _ (is_empty_iff in'.query).0 (ground arith);
  },
  λ w.
      let (ws, there, owner) = w.owned in
      let held = owned_by-held username db row ws there owner w.alive in
      let kind = w.kind in
      let tag = w.tag in
      let query = w.query in
      ground (
        arith,
        eq_iff in'.kind "",
        eq_iff row.kind in'.kind,
        is_empty_iff in'.tag,
        is_empty_iff in'.query,
      ),
)

-- A list for an account that returned has validated its input. A memory is listed exactly when it is
-- not deleted, in a workspace that the account owns, of the wanted kind and tag, where these are
-- asked for, and matching the query, if there is one. The total is the number of those memories in
-- the tables that the first statement saw; the page has only such memories of the tables that the
-- second one saw, and as many as the limit and the offset leave of them.
pub list_for-Page :
    (env : Env) (ft : FullText) (username : Str) (raw : SearchInput) (counted db : Db) (fs : Faults)
    (out : SearchResult)
    → (list_for env ft username raw counted db fs).0 ≡ ok out
    → (in' : SearchInput) × (validate_search env.unicode raw ≡ ok in')
      × (p : Db → MemoryRow → Bool) × ((d : Db) (row : MemoryRow)
          → (p d row ≡ true) ↔ Wanted ft username in' d row)
      × Page p in' counted db out
unfolding list_for list_valid
list_for-Page env ft username raw counted db fs out h =
    elim (ok-cases (validate_search env.unicode raw)) [
      | inr (e, bad) ↦ absurd (ground arith)
      | inl (in', good) ↦
          let p = listed ft (owned_by username) in' in
          let body = λ (i : SearchInput). list_tx ft (owned_by username) i counted in
          (
            in',
            good,
            p,
            λ d row. listed-Wanted ft username in' d row,
            run-ok (λ out _. Page p in' counted db out) (body in') db fs out
                (list_tx-Page ft (owned_by username) in' counted db)
                (subst (λ (r : Result SearchInput). (list_valid r body db fs).0 ≡ ok out) good h),
          )
    ]
