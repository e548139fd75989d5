-- ===== src/Store/Consistent.antt =====
-- When the tables of internal/store/store.go are consistent, and the two kinds of write that its
-- operations share.
use kasane_mcp.Prelude.{
  ℕ, ◌≤◌, ◌<◌, ◌≡◌, subst, ◌⊎◌, inl, inr, Bool, true, false, [], ◌∷◌, Option, none, some, Str,
  str_eq, str_eq_iff, arith, Bool-cases,
}
use kasane_mcp.Table.{Table, lookup, modify, count}
use kasane_mcp.Table.Laws.{lookup-modify, count-modify}
use kasane_mcp.Core.Validation.{known_kind}
use kasane_mcp.Store.Schema.{Db, MemoryRow, JobRow, EventKind, in_profile, profile_count}
use kasane_mcp.Store.Outbox.{enqueue, queued, lookup-enqueue}

abbrev pub is_delete : EventKind → Bool
is_delete EventKind.upsert = false
is_delete EventKind.delete = true

-- The kind is one of the three, and a deleted memory keeps nothing of its text.
pub record WellFormed (row : MemoryRow) : Type 0 where
  pub kind_known : known_kind row.kind ≡ true
  pub no_title : row.deleted ≡ true → row.title ≡ []
  pub no_content : row.deleted ≡ true → row.content ≡ []
  pub no_tags : row.deleted ≡ true → row.tags ≡ []
  pub no_source : row.deleted ≡ true → row.source ≡ []

-- A row and its job.
abbrev pub RowJob : Option MemoryRow → Option JobRow → Type 0
RowJob none none = Unit {0}
RowJob none (some job) = ⊥
RowJob (some row) none =
    (1 ≤ row.revision)
    × WellFormed row
    × ((row.deleted ≡ true) ⊎ (row.indexed_revision ≡ row.revision))
RowJob (some row) (some job) =
    (1 ≤ row.revision)
    × WellFormed row
    × (job.revision ≤ row.revision)
    × (is_delete job.event_kind ≡ true → row.deleted ≡ true)

-- No two rows have one key.
abbrev pub Keyed {ℓ} : {V : Type ℓ} → Table V → Type ℓ
Keyed [] = Unit
Keyed ((k, v) ∷ t) = (lookup k t ≡ none) × Keyed t

pub record IsConsistent (db : Db) : Type 0 where
  pub keyed : Keyed db.memories
  pub rows : (id : Str) → RowJob (lookup id db.memories) (lookup id db.outbox)
  pub profiles : (w : Str) → profile_count w db ≤ 100

pub live-WellFormed :
    (row : MemoryRow) → known_kind row.kind ≡ true → row.deleted ≡ false → WellFormed row
live-WellFormed row known live = ground arith

row-facts :
    {row : MemoryRow} (job : Option JobRow)
    → RowJob (some row) job
    → (1 ≤ row.revision) × WellFormed row
row-facts none r = (r.0, r.1)
row-facts (some job) r = (r.0, r.1)

-- What consistency says of one row.
pub row-WellFormed :
    {db : Db}
    → IsConsistent db
    → (id : Str) {row : MemoryRow} → lookup id db.memories ≡ some row
    → (1 ≤ row.revision) × WellFormed row
row-WellFormed {db} c id found =
    row-facts (lookup id db.outbox)
      (subst (λ (o : Option MemoryRow). RowJob o (lookup id db.outbox)) found (c.rows id))

queued-RowJob :
    (now : ℕ) (kind : EventKind) (rev : ℕ) (outbox : Option JobRow) (row : MemoryRow)
    → 1 ≤ row.revision
    → WellFormed row
    → rev ≤ row.revision
    → (is_delete kind ≡ true → row.deleted ≡ true)
    → RowJob (some row) (some (queued now kind rev outbox))
unfolding queued
queued-RowJob now kind rev none row r d f k = (r, d, f, k)
queued-RowJob now kind rev (some job) row r d f k = (r, d, f, k)

pub modify-Keyed : {V : Type 0} (k : Str) (f : V → V) (t : Table V) → Keyed t → Keyed (modify k f t)
unfolding modify
modify-Keyed k f [] h = tt
modify-Keyed k f ((j, v) ∷ t) h =
    ground (arith, lookup-modify k j f t, str_eq_iff j k, str_eq_iff k j, modify-Keyed k f t)

-- A write of one row that queues its event.
module _ {db : Db} (ok : IsConsistent db) (now : ℕ) (id : Str) (kind : EventKind) (rev : ℕ)
    (f : MemoryRow → MemoryRow) (row : MemoryRow) (found : lookup id db.memories ≡ some row)
    (revised : 1 ≤ (f row).revision) (well_formed : WellFormed (f row))
    (fits : rev ≤ (f row).revision) (event : is_delete kind ≡ true → (f row).deleted ≡ true)
    (limit : (w : Str)
      → in_profile w (f row) ≡ true
      → (in_profile w row ≡ true) ⊎ (profile_count w db < 100)) where
  write_rows :
      (j : Str)
      → RowJob (lookup j (modify id f db.memories)) (lookup j (enqueue now id kind rev db.outbox))
  write_rows j =
      rw (lookup-modify id j f db.memories, lookup-enqueue now id kind rev db.outbox j)
        (elim (Bool-cases (str_eq id j)) [
          | inl e ↦ rw e (
              rw
                (subst (λ (k : Str). lookup k db.memories ≡ some row) ((str_eq_iff id j).0 e) found)
                (queued-RowJob now kind rev (lookup id db.outbox) (f row) revised well_formed fits
                  event))
          | inr e ↦ rw e (ok.rows j)
        ])

  write_profiles : (w : Str) → count (in_profile w) (modify id f db.memories) ≤ 100
  unfolding profile_count
  write_profiles w =
      ground (arith, count-modify (in_profile w) id f db.memories row found, limit w, ok.profiles w)

  pub write-IsConsistent :
      IsConsistent (record db {
        memories = modify id f db.memories;
        outbox = enqueue now id kind rev db.outbox;
      })
  unfolding profile_count
  write-IsConsistent = record {
    keyed = modify-Keyed id f db.memories ok.keyed;
    rows = write_rows;
    profiles = write_profiles;
  }

-- A new memory with its first job.
module _ {db : Db} (ok : IsConsistent db) (now : ℕ) (id : Str) (row : MemoryRow)
    (absent : lookup id db.memories ≡ none) (revised : 1 ≤ row.revision)
    (well_formed : WellFormed row)
    (limit : (w : Str) → in_profile w row ≡ true → profile_count w db < 100) where
  insert_rows :
      (j : Str)
      → RowJob
          (lookup j ((id, row) ∷ db.memories))
          (lookup j (enqueue now id EventKind.upsert row.revision db.outbox))
  unfolding lookup
  insert_rows j =
      rw (lookup-enqueue now id EventKind.upsert row.revision db.outbox j)
        (elim (Bool-cases (str_eq id j)) [
          | inl e ↦ rw e (
              queued-RowJob now EventKind.upsert row.revision (lookup id db.outbox) row revised
                well_formed (omega arith) (λ e. cc e))
          | inr e ↦ rw e (ok.rows j)
        ])

  insert_profiles : (w : Str) → count (in_profile w) ((id, row) ∷ db.memories) ≤ 100
  unfolding profile_count count
  insert_profiles w = ground (arith, limit w, ok.profiles w)

  pub insert-IsConsistent : IsConsistent (record db {
    memories = (id, row) ∷ db.memories;
    outbox = enqueue now id EventKind.upsert row.revision db.outbox;
  })
  unfolding profile_count
  insert-IsConsistent = record {
    keyed = (absent, ok.keyed);
    rows = insert_rows;
    profiles = insert_profiles;
  }
