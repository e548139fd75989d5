-- ===== src/Store/Remember/Outcome.antt =====
-- The outcomes of `Store.Remember` (internal/store/store.go).
pub use kasane_mcp.Store.Remember.Effects.{
  UnderLimit, IsLive, row_in-IsLive, revision_is-pos, created_row, rewritten_row, waiting,
  Remembered, same-IsReplay, replayed, created, updated,
}
use text.Mathlib.Text.{◌==◌ as text_eq}
use kasane_mcp.Prelude.{
  ℕ, ◌≡◌, refl, Bool, true, false, ◌&&◌, ◌||◌, not, ◌∷◌, Option, none, some, Str, leb, if-rule,
  Result, ok, err, Error, invalid, conflict, not_found, unavailable, is_some, arith,
}
use kasane_mcp.Table.{lookup, modify, find_row}
use kasane_mcp.Table.Laws.{find_row-some}
use kasane_mcp.Tx.{Tx, Faults}
use kasane_mcp.Tx.Rules.{
  Sat, Sat-pure, Sat-raise, Sat-if, Sat-option, Sat-step, Sat-query, Sat-exec, Sat-reads,
  Sat-weaken, Reads, transact-rule,
}
use kasane_mcp.Core.Types.{Memory, RememberInput}
use kasane_mcp.Core.Validation.{validate, is_empty}
use kasane_mcp.Store.Schema.{
  Env, Db, MemoryRow, is_profile, profile_count, scan_memory, row_in, cast_tx-Sat,
}
use kasane_mcp.Store.Outbox.{outbox_tx}
use kasane_mcp.Store.Remember.Steps.{pending, limit_profile, rewrite_row}
use kasane_mcp.Store.Remember.Create.{
  new_row, key_taken, idempotency, insert_memory, insert_tx, create_tx, replay_tx, has_key, same,
}
use kasane_mcp.Store.Remember.Update.{
  updated_row, revision_is, update_memory, rewrite_tx, update_tx, stale,
}
use kasane_mcp.Core.Ids.{valid_uuid}
use kasane_mcp.Store.Remember.{
  remember_valid, remember_with, workspace_tx, keyed_tx, remember_tx, remember,
}

module _ {A : Type 0} {Q : A → Db → Type 0} where
  pub limit_profile-Sat :
      (b : Bool) (w : Str) (rest : Tx Db A) (db : Db)
      → (UnderLimit b w db → Sat rest db Q)
      → Sat (limit_profile b w rest) db Q
  unfolding limit_profile
  limit_profile-Sat false w rest db h = h (λ e. cc)
  limit_profile-Sat true w rest db h = Sat-query (profile_count w) _ db (
      Sat-if (leb 100 (profile_count w db)) db (λ e. Sat-raise invalid db)
        (λ e. h (λ _. ground arith)))

insert_memory-ok :
    (now : ℕ) (id w : Str) (in' : RememberInput) (db : Db) (m : Memory) (db1 : Db)
    → insert_memory now id w in' db ≡ ok (m, db1)
    → (lookup id db.memories ≡ none)
      × (key_taken w (new_row now w in').idempotency_key db ≡ false)
      × (m ≡ scan_memory id (new_row now w in'))
      × (db1 ≡ record db { memories = (id, new_row now w in') ∷ db.memories })
unfolding insert_memory
insert_memory-ok now id w in' db m db1 h = ground arith

insert_tx-Sat :
    (env : Env) (now : ℕ) (fresh : Option Str) (id w : Str) (in' : RememberInput) (db : Db)
    → is_empty in'.id ≡ true
    → fresh ≡ some id
    → UnderLimit (is_profile in'.kind) w db
    → Sat (insert_tx now id w in') db (Remembered env now fresh w in' db)
unfolding insert_tx outbox_tx idempotency new_row pending scan_memory
insert_tx-Sat env now fresh id w in' db new drawn limit =
    Sat-step (insert_memory now id w in') _ db (λ m db1 e.
      let (absent, free, m_eq, db_eq) = insert_memory-ok now id w in' db m db1 e in
      Sat-exec _ _ db1 (Sat-pure _ _ (created id new drawn absent free limit (cc m_eq) (cc db_eq))))

create_tx-Sat :
    (env : Env) (now : ℕ) (fresh : Option Str) (w : Str) (in' : RememberInput) (db : Db)
    → is_empty in'.id ≡ true
    → Sat (create_tx now fresh w in') db (Remembered env now fresh w in' db)
unfolding create_tx
create_tx-Sat env now none w in' db new = Sat-raise unavailable db
create_tx-Sat env now (some id) w in' db new =
    limit_profile-Sat (is_profile in'.kind) w _ db
      (insert_tx-Sat env now (some id) id w in' db new refl)

replay_tx-Sat :
    (env : Env) (now : ℕ) (fresh : Option Str) (w : Str) (in' : RememberInput) (id : Str)
    (found : MemoryRow) (db : Db)
    → find_row (has_key w in'.idempotency_key) db.memories ≡ some (id, found)
    → Sat (replay_tx w in' (id, found)) db (Remembered env now fresh w in' db)
unfolding replay_tx
replay_tx-Sat env now fresh w in' id found db held = Sat-query (row_in w id true) _ db (
    Sat-option (row_in w id true db) db (λ _. Sat-raise unavailable db)
      (λ m e.
        Sat-if (m.deleted || not (same in' found)) db (λ _. Sat-raise conflict db)
          (λ t. Sat-pure _ db (
            replayed id found m held
              (same-IsReplay w in' found
                (find_row-some (has_key w in'.idempotency_key) db.memories id found held)
                (ground arith))
              e (ground arith) refl refl))))

keyed_tx-Sat :
    (env : Env) (now : ℕ) (fresh : Option Str) (w : Str) (in' : RememberInput) (db : Db)
    → is_empty in'.id ≡ true
    → Sat (keyed_tx now fresh w in') db (Remembered env now fresh w in' db)
unfolding keyed_tx
keyed_tx-Sat env now fresh w in' db new =
    let held = λ (d : Db). find_row (has_key w in'.idempotency_key) d.memories in
    Sat-query held _ db (
      Sat-option (held db) db (λ _. create_tx-Sat env now fresh w in' db new)
        (λ (id, found) e. replay_tx-Sat env now fresh w in' id found db e))

-- The row that the UPDATE finds is the one that was read.
update_memory-ok :
    (now : ℕ) (id w : Str) (in' : RememberInput) (db : Db) (m row : MemoryRow) (db1 : Db)
    → row_in w id false db ≡ some m
    → update_memory now id w in' db ≡ ok (some row, db1)
    → (revision_is in'.expected_revision m ≡ true)
      × (row ≡ updated_row now in' m)
      × (db1 ≡ record db { memories = modify id (updated_row now in') db.memories })
unfolding update_memory rewrite_row row_in
update_memory-ok now id w in' db m row db1 found h = ground arith

rewrite_tx-Sat :
    (env : Env) (now : ℕ) (fresh : Option Str) (id w : Str) (in' : RememberInput) (db : Db)
    (m : MemoryRow)
    → env.uuid in'.id ≡ some id
    → row_in w id false db ≡ some m
    → UnderLimit (text_eq m.kind "memory" && is_profile in'.kind) w db
    → Sat (rewrite_tx now id w in') db (Remembered env now fresh w in' db)
unfolding rewrite_tx outbox_tx updated_row pending scan_memory
rewrite_tx-Sat env now fresh id w in' db m reads found limit =
    Sat-step (update_memory now id w in') _ db (λ out db1 e.
      Sat-option out db1 (λ _. Sat-raise conflict db1)
        (λ row row_eq.
          let (current, new, db_eq) =
            update_memory-ok now id w in' db m row db1 found (cc (e, row_eq)) in
          Sat-exec _ _ db1 (
            Sat-pure _ _ (
              updated id m reads (row_in-IsLive w id db found)
                (revision_is-pos in'.expected_revision m current) limit (cc new)
                (cc (db_eq, new))))))

update_tx-Sat :
    (env : Env) (now : ℕ) (fresh : Option Str) (w : Str) (in' : RememberInput) (db : Db)
    → Sat (update_tx env now w in') db (Remembered env now fresh w in' db)
unfolding update_tx
update_tx-Sat env now fresh w in' db = Sat-reads _ (cast_tx-Sat env in'.id db) (λ id reads.
    Sat-query (row_in w id false) _ db (
      Sat-option (row_in w id false db) db (λ _. Sat-raise not_found db)
        (λ m found.
          Sat-if (stale in' m) db (λ _. Sat-raise conflict db)
            (λ _.
              limit_profile-Sat (text_eq m.kind "memory" && is_profile in'.kind) w _ db
                (λ limit. rewrite_tx-Sat env now fresh id w in' db m reads found limit)))))

-- The workspace that was named, and is there.
pub record Named (env : Env) (ws : Str) (db : Db) (w : Str) : Type 0 where
  pub reads_as : env.uuid ws ≡ some w
  pub exists : is_some (lookup w db.workspaces) ≡ true

pub workspace_tx-Sat :
    (env : Env) (ws : Str) (db : Db) → Reads (workspace_tx env ws) db (Named env ws db)
unfolding workspace_tx
workspace_tx-Sat env ws db = Sat-reads _ (cast_tx-Sat env ws db) (λ w reads_as. Sat-query _ _ db (
    Sat-if (is_some (lookup w db.workspaces)) db
      (λ there.
        Sat-query _ _ db (Sat-pure w db (refl, record { reads_as = reads_as; exists = there })))
      (λ _. Sat-raise not_found db)))

remember_tx-Sat :
    (env : Env) (now : ℕ) (fresh : Option Str) (ws : Str) (in' : RememberInput) (db : Db)
    → Sat
        (remember_tx env now fresh ws in')
        db
        (λ m db'. (w : Str) × Named env ws db w × Remembered env now fresh w in' db m db')
unfolding remember_tx
remember_tx-Sat env now fresh ws in' db = Sat-reads _ (workspace_tx-Sat env ws db) (λ w named.
    Sat-weaken (λ m db' r. (w, named, r))
      (Sat-if (is_empty in'.id && not (is_empty in'.idempotency_key)) db
        (λ t. keyed_tx-Sat env now fresh w in' db (ground arith))
        (λ _.
          Sat-if (is_empty in'.id) db (λ new. create_tx-Sat env now fresh w in' db new)
            (λ _. update_tx-Sat env now fresh w in' db))))

-- `Remember` returns an error and leaves the tables as they were, or it has done one of the three.
pub data Outcome (env : Env) (now : ℕ) (fresh : Option Str) (ws : Str) (raw : RememberInput)
    (db : Db) : Result Memory → Db → Type 0 where
  refused : (e : Error) → Outcome env now fresh ws raw db (err e) db
  done :
      {m : Memory} {db' : Db} (w : Str) (in' : RememberInput)
      → validate env.unicode raw ≡ ok in'
      → Named env ws db w
      → Remembered env now fresh w in' db m db'
      → Outcome env now fresh ws raw db (ok m) db'

module _ (env : Env) (now : ℕ) (fresh : Option Str) (ws : Str) (raw : RememberInput) (db : Db)
    (fs : Faults) where
  remember_valid-Outcome :
      (in' : RememberInput)
      → validate env.unicode raw ≡ ok in'
      → Outcome env now fresh ws raw db
          (remember_valid env now fresh ws in' db fs).0
          (remember_valid env now fresh ws in' db fs).1
  unfolding remember_valid
  remember_valid-Outcome in' valid =
      if-rule (λ (p : Result Memory × Db). Outcome env now fresh ws raw db p.0 p.1)
        (not (is_empty in'.id) && not (valid_uuid in'.id)) (λ _. refused invalid)
        (λ _.
          transact-rule (Outcome env now fresh ws raw db) (remember_tx env now fresh ws in') db fs
            refused
            (Sat-weaken (λ m db' (w, named, r). done w in' valid named r)
              (remember_tx-Sat env now fresh ws in' db)))

  -- Whatever the input, the clock, the generated ID, the tables and the statements that fail:
  -- Remember returns an error and leaves the tables as they were; or the input is valid, the
  -- workspace exists, and one of three things has happened in it: a memory created before under the
  -- same idempotency key, with the same text and still there, is returned and nothing is written; a
  -- new row with the input's text and its job is put in under the generated ID, which was free; or
  -- the live row of the input's ID, which has the expected revision, is rewritten with the input's
  -- text under the next revision and its job is queued. A create in the profile, and an update that
  -- brings a memory into it, finds fewer than 100 profile memories.
  pub remember-Outcome :
      Outcome env now fresh ws raw db
        (remember env now fresh ws raw db fs).0
        (remember env now fresh ws raw db fs).1
  unfolding remember
  remember-Outcome = go (validate env.unicode raw) refl
    where
      go :
          (r : Result RememberInput)
          → validate env.unicode raw ≡ r
          → Outcome env now fresh ws raw db
              (remember_with env now fresh ws db fs r).0
              (remember_with env now fresh ws db fs r).1
      go (err e) valid = refused e
      go (ok in') valid = remember_valid-Outcome in' valid
