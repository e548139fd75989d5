-- ===== src/Store/RoundTrips/Written.antt =====
-- `Store.Get` behind `Store.Remember` and `Store.Move` (internal/store/store.go): what they return.
use kasane_mcp.Prelude.{
  ℕ, ◌≡◌, refl, sym, ap, ◌∙◌, subst, true, false, [], Option, some, Str, ℤ, str_eq, str_eq_refl,
  str_eq_iff, none, arith, Result, ok, err, not_found, ◌≢◌,
}
use kasane_mcp.Table.{lookup}
use kasane_mcp.Tx.{Faults}
use kasane_mcp.Core.Types.{Memory, RememberInput}
use kasane_mcp.Core.Ids.{valid_uuid}
use kasane_mcp.Store.Schema.{Env, Db, MemoryRow, scan_memory, row_in, visible}
use kasane_mcp.Store.Remember.{remember}
use kasane_mcp.Store.Remember.Outcome.{
  Remembered, Outcome, IsLive, created_row, rewritten_row, waiting, remember-Outcome,
}
use kasane_mcp.Store.Remember.Keeps.{row_in-some}
use kasane_mcp.Store.Move.{move}
use kasane_mcp.Store.Move.Outcome as M
use kasane_mcp.Store.Records.{get}
use kasane_mcp.Store.Replies.{get-live, get-absent}
use kasane_mcp.Store.RoundTrips.{row_in-at, modified}

-- `m` is how the live row of `w` under `id` is read.
pub record ReadAs (w id : Str) (db : Db) (m : Memory) : Type 0 where
  pub row : MemoryRow
  pub live : IsLive w id db row
  pub same : m ≡ scan_memory id row

found-ReadAs :
    (w id : Str) (db : Db) (row : MemoryRow) (m : Memory)
    → lookup id db.memories ≡ some row
    → row.workspace_id ≡ w
    → row.deleted ≡ false
    → m ≡ scan_memory id row
    → ReadAs w id db m
found-ReadAs w id db row m found home alive same = record {
  row = row;
  live = record { found = found; home = home; alive = alive };
  same = same;
}

-- A row whose revision the index does not have is read as one that waits.
pub waiting-scan :
    (id : Str) (row : MemoryRow)
    → row.indexed_revision ≢ row.revision
    → waiting id row ≡ scan_memory id row
unfolding scan_memory
waiting-scan id row h = ground arith

Remembered-ReadAs :
    {env : Env} {now : ℕ} {fresh : Option Str} {w : Str} {in' : RememberInput} {db db' : Db}
    {m : Memory}
    → Remembered env now fresh w in' db m db'
    → (id : Str) × (m.id ≡ id) × ReadAs w id db' m
Remembered-ReadAs {w = w} {db = db} {db' = db'} {m = m}
      (Remembered.replayed id found row held like there alive m_eq db_eq) =
    let (at, home, live) = row_in-some w id true db there in
    (
      id,
      unfold scan_memory in cc m_eq,
      found-ReadAs w id db' row m (cc (at, db_eq)) home alive m_eq,
    )
Remembered-ReadAs {now = now} {w = w} {in' = in'} {db' = db'} {m = m}
      (Remembered.created id new drawn absent free limit m_eq db_eq) =
    (
      id,
      unfold scan_memory in cc m_eq,
      found-ReadAs w id db' (created_row now w in') m
          (rw db_eq (unfold lookup in rw (str_eq_refl id) refl)) refl refl
          (m_eq ∙ waiting-scan id (created_row now w in') (ground arith)),
    )
Remembered-ReadAs {now = now} {w = w} {in' = in'} {db = db} {db' = db'} {m = m}
      (Remembered.updated id row reads l current limit m_eq db_eq) =
    (
      id,
      unfold scan_memory in cc m_eq,
      found-ReadAs w id db' (rewritten_row now in' row) m
          (rw db_eq (modified id (rewritten_row now in') db.memories row l.found)) l.home l.alive
          (m_eq ∙ waiting-scan id (rewritten_row now in' row) (ground arith)),
    )

get-ReadAs :
    (env : Env) (ws w id : Str) (db : Db) (m : Memory)
    → env.uuid ws ≡ some w
    → valid_uuid id ≡ true
    → env.uuid id ≡ some id
    → ReadAs w id db m
    → get env ws id db [] ≡ (ok m, db)
get-ReadAs env ws w id db m ws_reads valid id_reads r = rw r.same (
    get-live env 0 db ws w ws_reads id id r.row valid id_reads
      (row_in-at w id db r.row r.live.found (rw r.live.home (str_eq_refl w)) r.live.alive))

Outcome-ReadAs :
    {env : Env} {now : ℕ} {fresh : Option Str} {ws : Str} {raw : RememberInput} {db db' : Db}
    {r : Result Memory} {m : Memory}
    → Outcome env now fresh ws raw db r db'
    → r ≡ ok m
    → (w : Str) × (env.uuid ws ≡ some w) × ReadAs w m.id db' m
Outcome-ReadAs (Outcome.refused e) h = absurd cc
Outcome-ReadAs {db' = db'} {m = m} (Outcome.done {m = m'} w in' valid named r) h =
    let (id, is, read) = Remembered-ReadAs r in
    let same : m' ≡ m = cc h in
    (
      w,
      named.reads_as,
      subst (λ (x : Memory). ReadAs w x.id db' x) same
          (subst (λ (x : Str). ReadAs w x db' m') (sym is) read),
    )

-- Whatever Remember returns, a new memory, an updated one or the one of an earlier create with the
-- same key, Get then reads the same under its ID, which reads as itself.
pub remember-get :
    (env : Env) (now : ℕ) (fresh : Option Str) (ws : Str) (raw : RememberInput) (db : Db)
    (fs : Faults) (m : Memory)
    → (remember env now fresh ws raw db fs).0 ≡ ok m
    → valid_uuid m.id ≡ true
    → env.uuid m.id ≡ some m.id
    → (get env ws m.id (remember env now fresh ws raw db fs).1 []).0 ≡ ok m
remember-get env now fresh ws raw db fs m done valid id_reads =
    let (w, ws_reads, read) = Outcome-ReadAs (remember-Outcome env now fresh ws raw db fs) done in
    ap (λ p. p.0) (get-ReadAs env ws w m.id _ m ws_reads valid id_reads read)

Moved-ReadAs :
    {now : ℕ} {source target id : Str} {expected : ℤ} {db db' : Db} {m : Memory}
    → M.Moved now source target id expected db m db'
    → ReadAs target id db' m
Moved-ReadAs {now} {source} {target} {id} {expected} {db} {db'} {m} v =
    found-ReadAs target id db' (M.transferred_row now target v.row) m
      (rw v.db_eq (modified id (M.transferred_row now target) db.memories v.row v.there.found)) refl
      v.there.alive (v.m_eq ∙ waiting-scan id (M.transferred_row now target v.row) (ground arith))

ReadAs-elsewhere :
    (v w id : Str) (db : Db) (m : Memory) → v ≢ w → ReadAs w id db m → row_in v id false db ≡ none
unfolding row_in visible
ReadAs-elsewhere v w id db m apart r =
    let e = r.live.found in
    let home = r.live.home in
    let other : str_eq r.row.workspace_id v ≡ false =
      ground (arith, str_eq_iff r.row.workspace_id v) in
    rw e (rw other refl)

move-Transfer :
    {env : Env} {now : ℕ} {source target memory_id : Str} {expected : ℤ} {db db' : Db}
    {r : Result Memory} {m : Memory}
    → M.Outcome env now source target memory_id expected db r db'
    → r ≡ ok m
    → M.Transfer env now source target memory_id expected db m db'
move-Transfer (M.Outcome.refused e) h = absurd cc
move-Transfer {env} {now} {source} {target} {memory_id} {expected} {db} {db'} {m = m}
      (M.Outcome.done t) h =
    subst (λ (x : Memory). M.Transfer env now source target memory_id expected db x db') (cc h) t

-- Whatever Move returns, Get then reads the same in the target under the ID, which reads as a UUID,
-- and, if the two texts of the workspaces do not read as the same UUID, finds nothing in the source.
pub move-get :
    (env : Env) (now : ℕ) (source target id : Str) (expected : ℤ) (db : Db) (fs : Faults)
    (m : Memory)
    → (move env now source target id expected db fs).0 ≡ ok m
    → valid_uuid id ≡ true
    → env.uuid source ≢ env.uuid target
    → ((get env target id (move env now source target id expected db fs).1 []).0 ≡ ok m)
      × ((get env source id (move env now source target id expected db fs).1 []).0 ≡ err not_found)
move-get env now source target id expected db fs m done valid apart =
    let t = move-Transfer (M.move-Outcome env now source target id expected db fs) done in
    let read = Moved-ReadAs t.moved in
    let from_reads = t.from_named.reads_as in
    let to_reads = t.to_named.reads_as in
    (
      rw read.same (
          ap (λ p. p.0)
            (get-live env 0 _ target t.to to_reads id t.id read.row valid t.id_reads (
              row_in-at t.to t.id _ read.row read.live.found (rw read.live.home (str_eq_refl t.to))
                read.live.alive))),
      ap (λ p. p.0)
          (get-absent env 0 _ source t.from from_reads id t.id valid t.id_reads (
            ReadAs-elsewhere t.from t.to t.id _ m
              (λ e. apart (from_reads ∙ ap some e ∙ sym to_reads)) read)),
    )
