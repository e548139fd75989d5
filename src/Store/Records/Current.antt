-- ===== src/Store/Records/Current.antt =====
-- `Store.Rehydrate` (internal/store/store.go) against the rows that the hits name.
use kasane_mcp.Prelude.{
  ◌≡◌, refl, sym, ap, ◌∙◌, subst, true, false, not, List, [], ◌∷◌, Option, none, some, Str, ◌==◌,
  length, ℕ, arith, if◌then◌else◌, Result, ok, err, Error, Option-cases, inl, inr,
}
use kasane_mcp.Tx.{Faults}
use kasane_mcp.Tx.Rules.{
  Reads, Sat-pure, Sat-if, Sat-option, Sat-query, Sat-reads, Sat-weaken, run-rule,
}
use kasane_mcp.Core.Types.{Memory, Hit}
use kasane_mcp.Core.Ids.{valid_uuid}
use kasane_mcp.Store.Schema.{Env, Db, scan_memory, row_in, cast_tx-Sat}
use kasane_mcp.Store.Records.{find_tx, rehydrate_tx, rehydrate}

-- The live memory of the workspace `w` that a hit names, if the hit has its revision.
abbrev pub current : Env → Str → Db → Hit → Option Memory
current env w db h =
    if valid_uuid h.id
    then elim (env.uuid h.id) [
      | none ↦ none
      | some id ↦ elim (row_in w id false db) [
        | none ↦ none
        | some row ↦
            if row.revision == h.revision
            then some (record (scan_memory id row) { score = h.score })
            else none
      ]
    ]
    else none

abbrev prepend : Option Memory → List Memory → List Memory
prepend none ms = ms
prepend (some m) ms = m ∷ ms

-- The memories of the hits, in the order of the hits, each as the tables were when it was read.
abbrev pub current_all : Env → Str → (ℕ → Db) → List Hit → List Memory
current_all env w seen [] = []
current_all env w seen (h ∷ hits) =
    prepend (current env w (seen (length hits)) h) (current_all env w seen hits)

-- What was found under two texts.
pub record Found (env : Env) (ws memory_id : Str) (db : Db) (found : Option Memory) : Type 0 where
  pub w : Str
  pub id : Str
  pub ws_reads : env.uuid ws ≡ some w
  pub id_reads : env.uuid memory_id ≡ some id
  pub found_eq :
      found ≡ elim (row_in w id false db) [ none ↦ none | some row ↦ some (scan_memory id row) ]

pub find_tx-Sat :
    (env : Env) (seen : Db → Db) (ws memory_id : Str) (db : Db)
    → Reads (find_tx env seen ws memory_id) db (Found env ws memory_id (seen db))
unfolding find_tx
find_tx-Sat env seen ws memory_id db = Sat-reads _ (cast_tx-Sat env ws db) (λ w nw.
    Sat-reads _ (cast_tx-Sat env memory_id db) (λ id ni.
      Sat-query (λ (db : Db). row_in w id false (seen db)) _ db
        (Sat-option (row_in w id false (seen db)) db
          (λ e.
            Sat-pure none db
              (refl, record { w = w; id = id; ws_reads = nw; id_reads = ni; found_eq = rw e }))
          (λ row e.
            Sat-pure _ db
              (refl, record { w = w; id = id; ws_reads = nw; id_reads = ni; found_eq = rw e })))))

-- The hit against what was found.
abbrev matching : Hit → Option Memory → Option Memory
matching h none = none
matching h (some m) = if m.revision == h.revision then some (record m { score = h.score }) else none

current-Found :
    (env : Env) (ws w : Str) (db : Db) (h : Hit) (found : Option Memory)
    → env.uuid ws ≡ some w
    → valid_uuid h.id ≡ true
    → Found env ws h.id db found
    → current env w db h ≡ matching h found
unfolding scan_memory
current-Found env ws w db h found reads valid f =
    let same_ws : f.w ≡ w = cc (f.ws_reads, reads) in
    let e : found
        ≡ elim (row_in w f.id false db) [ none ↦ none | some row ↦ some (scan_memory f.id row) ] =
      subst
        (λ (v : Str).
          found
          ≡ elim (row_in v f.id false db) [ none ↦ none | some row ↦ some (scan_memory f.id row) ])
        same_ws f.found_eq in
    rw (valid, f.id_reads, e)
      (elim (Option-cases (row_in w f.id false db)) [
        | inl gone ↦ rw gone
        | inr (row, there) ↦ rw there
      ])

prepended :
    (env : Env) (w : Str) (h : Hit) (hits : List Hit) (seen : ℕ → Db) (o : Option Memory)
    → current env w (seen (length hits)) h ≡ o
    → prepend o (current_all env w seen hits) ≡ current_all env w seen (h ∷ hits)
prepended env w h hits seen o e =
    ap (λ (x : Option Memory). prepend x (current_all env w seen hits)) (sym e)

skipped :
    (env : Env) (ws w : Str) (h : Hit) (hits : List Hit) (seen : ℕ → Db) (db : Db)
    → Reads (rehydrate_tx env ws seen hits) db (λ ms. ms ≡ current_all env w seen hits)
    → current env w (seen (length hits)) h ≡ none
    → Reads (rehydrate_tx env ws seen hits) db (λ ms. ms ≡ current_all env w seen (h ∷ hits))
skipped env ws w h hits seen db ih e =
    Sat-weaken (λ ms db' r. (r.0, r.1 ∙ prepended env w h hits seen none e)) ih

rehydrate_tx-Sat :
    (env : Env) (ws w : Str) (seen : ℕ → Db) (hits : List Hit) (db : Db)
    → env.uuid ws ≡ some w
    → Reads (rehydrate_tx env ws seen hits) db (λ ms. ms ≡ current_all env w seen hits)
unfolding rehydrate_tx
rehydrate_tx-Sat env ws w seen [] db reads = Sat-pure [] db (refl, refl)
rehydrate_tx-Sat env ws w seen (h ∷ hits) db reads =
    let ih = rehydrate_tx-Sat env ws w seen hits db reads in
    let put = prepended env w h hits seen in
    let skip = skipped env ws w h hits seen db ih in
    Sat-if (not (valid_uuid h.id)) db (λ bad. skip (ground arith))
      (λ good. Sat-reads _ (find_tx-Sat env (λ _. seen (length hits)) ws h.id db) (λ found f.
        let as_found = current-Found env ws w (seen (length hits)) h found reads (ground arith) f in
        Sat-option found db (λ e. skip (as_found ∙ rw e))
          (λ m e.
            Sat-if (m.revision == h.revision) db
              (λ same. Sat-reads _ ih (λ ms r. Sat-pure _ db (
                refl,
                rw r (put (some (record m { score = h.score })) (as_found ∙ rw e (rw same))),
              )))
              (λ other. skip (as_found ∙ rw e (rw other))))))

-- The list, if no statement fails, and the tables as they were.
pub data Rehydrated (env : Env) (w : Str) (seen : ℕ → Db) (hits : List Hit) (db : Db)
    : Result (List Memory) → Db → Type 0 where
  failed : (e : Error) → Rehydrated env w seen hits db (err e) db
  found :
      {ms : List Memory} {db' : Db}
      → db' ≡ db
      → ms ≡ current_all env w seen hits
      → Rehydrated env w seen hits db (ok ms) db'

-- Where the workspace reads as a UUID: Rehydrate returns an error, or exactly the live memories
-- of that workspace that the hits name at their current revision, in the order of the hits and
-- with the hits' scores, each hit judged by the tables that its own SELECT saw; and it never changes
-- the tables.
pub rehydrate-Rehydrated :
    (env : Env) (ws w : Str) (seen : ℕ → Db) (hits : List Hit) (db : Db) (fs : Faults)
    → env.uuid ws ≡ some w
    → Rehydrated env w seen hits db
        (rehydrate env ws seen hits db fs).0
        (rehydrate env ws seen hits db fs).1
unfolding rehydrate
rehydrate-Rehydrated env ws w seen hits db fs reads =
    run-rule (Rehydrated env w seen hits db) (rehydrate_tx env ws seen hits) db fs failed
      (Sat-weaken (λ ms db' r. found r.0 r.1) (rehydrate_tx-Sat env ws w seen hits db reads))
