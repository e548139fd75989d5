-- ===== src/Search.antt =====
-- Searching: `Service.Search` of internal/search/service.go. The repository and the index are
-- interfaces there, and arguments here.
use kasane_mcp.Prelude.{
  ◌≡◌, true, false, inl, inr, List, Str, length, Result, ok, err, Error, if◌then◌else◌, Bool-cases,
  ok-cases,
}
use kasane_mcp.GoText.{Unicode}
use kasane_mcp.Core.Types.{Memory, SearchInput, SearchResult, Hit}
use kasane_mcp.Core.Validation.{is_empty, validate_search}

pub record Repository : Type 0 where
  pub list : Str → SearchInput → Result SearchResult
  pub rehydrate : Str → List Hit → Result (List Memory)

abbrev pub Index : Type 0
Index = Str → SearchInput → Result (List Hit)

degraded : Result SearchResult → Result SearchResult
degraded (err e) = err e
degraded (ok out) = ok (record out { degraded = true })

found : Result (List Memory) → Result SearchResult
found (err e) = err e
found (ok memories) = ok (record { memories = memories; degraded = false; total = length memories })

-- Behind the index: PostgreSQL takes over when it fails.
by_index : Repository → Str → SearchInput → Result (List Hit) → Result SearchResult
unfolding degraded found
by_index repo ws in' (err e) = degraded (repo.list ws in')
by_index repo ws in' (ok hits) = found (repo.rehydrate ws hits)

by_input : Repository → Index → Str → Result SearchInput → Result SearchResult
unfolding by_index
by_input repo index ws (err e) = err e
by_input repo index ws (ok in') =
    if is_empty in'.query then repo.list ws in' else by_index repo ws in' (index ws in')

unfoldable pub search : Unicode → Repository → Index → Str → SearchInput → Result SearchResult
unfolding by_input
search u repo index ws raw = by_input repo index ws (validate_search u raw)

-- Where a search result comes from.
pub data Source (repo : Repository) (index : Index) (ws : Str) (in' : SearchInput)
    (out : SearchResult) : Type 0 where
  listed : is_empty in'.query ≡ true → repo.list ws in' ≡ ok out → Source repo index ws in' out
  fallen_back :
      (e : Error) (plain : SearchResult)
      → is_empty in'.query ≡ false
      → index ws in' ≡ err e
      → repo.list ws in' ≡ ok plain
      → out ≡ record plain { degraded = true }
      → Source repo index ws in' out
  indexed :
      (hits : List Hit)
      → is_empty in'.query ≡ false
      → index ws in' ≡ ok hits
      → repo.rehydrate ws hits ≡ ok out.memories
      → out.degraded ≡ false
      → out.total ≡ length out.memories
      → Source repo index ws in' out

by_index-Source :
    (repo : Repository) (index : Index) (ws : Str) (in' : SearchInput) (out : SearchResult)
    → is_empty in'.query ≡ false
    → by_index repo ws in' (index ws in') ≡ ok out
    → Source repo index ws in' out
unfolding by_index
by_index-Source repo index ws in' out asked h = elim (ok-cases (index ws in')) [
  | inl (hits, e) ↦ elim (ok-cases (repo.rehydrate ws hits)) [
    | inl (memories, r) ↦
        let p : record { memories = memories; degraded = false; total = length memories } ≡ out =
          cc (h, e, r) in
        indexed hits asked e (cc (r, p)) (cc p) (cc p)
    | inr (error, r) ↦ absurd (cc (h, e, r))
  ]
  | inr (error, e) ↦ elim (ok-cases (repo.list ws in')) [
    | inl (plain, r) ↦ fallen_back error plain asked e r (cc (h, e, r))
    | inr (other, r) ↦ absurd (cc (h, e, r))
  ]
]

by_input-Source :
    (repo : Repository) (index : Index) (ws : Str) (in' : SearchInput) (out : SearchResult)
    → by_input repo index ws (ok in') ≡ ok out
    → Source repo index ws in' out
unfolding by_input
by_input-Source repo index ws in' out h = elim (Bool-cases (is_empty in'.query)) [
  | inl e ↦ listed e (rw e at h)
  | inr e ↦ by_index-Source repo index ws in' out e (rw e at h)
]

-- A search that returns a result: its input is accepted, and with an empty query the result is the
-- repository's list; else it is what the repository rehydrates of the index's hits, in full and not
-- degraded, or, if the index fails, the repository's list, marked as degraded.
pub search-Source :
    (u : Unicode) (repo : Repository) (index : Index) (ws : Str) (raw in' : SearchInput)
    (out : SearchResult)
    → validate_search u raw ≡ ok in'
    → search u repo index ws raw ≡ ok out
    → Source repo index ws in' out
unfolding search
search-Source u repo index ws raw in' out valid h =
    let h1 : by_input repo index ws (ok in') ≡ ok out = rw valid at h in
    by_input-Source repo index ws in' out h1
