-- ===== src/Store/Lists/Profiles.antt =====
-- `Store.Profile` (internal/store/store.go) on consistent tables.
use kasane_mcp.Prelude.{
  suc, ◌≤◌, ◌≡◌, refl, subst, some, Bool, List, [], ◌∷◌, Str, arith, length, length-map,
  length-take, take, ok,
}
use kasane_mcp.Table.{Table, count}
use kasane_mcp.Tx.{Faults, query}
use kasane_mcp.Tx.Rules.{Sat-reads, Sat-statement, run-ok}
use kasane_mcp.Core.Types.{Memory}
use kasane_mcp.Store.Schema.{Env, Db, MemoryRow, in_profile, profile_count, cast_tx-Sat}
use kasane_mcp.Store.Consistent.{IsConsistent}
use kasane_mcp.Store.Lists.{
  FullText, insert_by, sort_by, rows_where, scan_row, profile_rows, profile,
}

module _ {A : Type 0} (less : A → A → Bool) where
  length-insert_by : (a : A) (xs : List A) → length (insert_by less a xs) ≡ suc (length xs)
  unfolding insert_by
  length-insert_by a [] = refl
  length-insert_by a (b ∷ xs) = ground (arith, length-insert_by a xs)

  pub length-sort_by : (xs : List A) → length (sort_by less xs) ≡ length xs
  unfolding sort_by
  length-sort_by [] = refl
  length-sort_by (a ∷ xs) = omega (arith, length-insert_by a (sort_by less xs), length-sort_by xs)

pub length-rows_where :
    (p : MemoryRow → Bool) (t : Table MemoryRow) → length (rows_where p t) ≡ count p t
unfolding rows_where count
length-rows_where p [] = refl
length-rows_where p ((id, row) ∷ t) = ground (arith, length-rows_where p t)

length-profile_rows :
    (ft : FullText) (w : Str) (db : Db)
    → IsConsistent db
    → length (profile_rows ft w db) ≡ profile_count w db
unfolding profile_rows profile_count
length-profile_rows ft w db c = omega (
  arith,
  length-map (take 100 (sort_by ft.profile_before (rows_where (in_profile w) db.memories)))
      scan_row,
  length-take 100 (sort_by ft.profile_before (rows_where (in_profile w) db.memories)),
  length-sort_by ft.profile_before (rows_where (in_profile w) db.memories),
  length-rows_where (in_profile w) db.memories,
  profile_limit,
)
  where
    profile_limit : count (in_profile w) db.memories ≤ 100
    profile_limit = c.profiles w

-- On consistent tables the limit of 100 never cuts the profile: whatever a call returns has as many
-- memories as the workspace has live stack and practice memories.
pub profile-Whole :
    (env : Env) (ft : FullText) (ws w : Str) (db : Db) (fs : Faults) (memories : List Memory)
    → IsConsistent db
    → env.uuid ws ≡ some w
    → (profile env ft ws db fs).0 ≡ ok memories
    → length memories ≡ profile_count w db
unfolding profile query
profile-Whole env ft ws w db fs memories c ew h =
    run-ok (λ memories _. length memories ≡ profile_count w db) _ db fs memories
      (Sat-reads _ (cast_tx-Sat env ws db) (λ w' ew'.
        Sat-statement (λ (db : Db). ok (profile_rows ft w' db, db)) db
          (λ memories db' eq.
            let same : profile_rows ft w db ≡ memories = cc (eq, ew, ew') in
            subst (λ (ms : List Memory). length ms ≡ profile_count w db) same
              (length-profile_rows ft w db c))))
      h
