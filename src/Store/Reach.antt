-- ===== src/Store/Reach.antt =====
-- Runs of the store: the operations of internal/store/store.go and tenancy.go that write workspaces,
-- memories and their index queue, one behind the other, each with any arguments, any clock and any
-- failing statements.
use kasane_mcp.Prelude.{
  List, ◌∷◌, ◌⊎◌, inl, inr, sym, subst, ◌≡◌, ℕ, Bool, [], Option, Str, ℤ, arith,
}
use kasane_mcp.Table.{lookup, count}
use kasane_mcp.Tx.{Faults}
use kasane_mcp.Core.Types.{Memory, RememberInput}
use kasane_mcp.Store.Schema.{Env, Db, profile_count}
use kasane_mcp.Store.Remember.{remember}
use kasane_mcp.Store.Move.{move}
use kasane_mcp.Store.Records.{forget}
use kasane_mcp.Store.Worker.{reindex, process_one}
use kasane_mcp.Store.Consistent.{IsConsistent, Keyed}
use kasane_mcp.Accounts.Schema as Accounts
use kasane_mcp.Accounts.Workspaces.{
  create_workspace, create_workspace_owned, create_workspace_for_key,
}
use kasane_mcp.Store.Remember.Keeps.{remember-IsConsistent}
use kasane_mcp.Store.Remember.Outcome.{remember-Outcome}
use kasane_mcp.Store.Growth.{Later-refl, Later-trans}
use kasane_mcp.Store.Growth.Writes.{
  Grows, remembered-Grows, moved-Grows, forgotten-Grows, processed-Grows,
}
use kasane_mcp.Store.Move.Outcome.{move-Outcome, move-IsConsistent}
use kasane_mcp.Store.Records.Forgotten.{forget-Settled, forget-IsConsistent}
use kasane_mcp.Store.Worker.Requeue.{reindex-IsConsistent}
use kasane_mcp.Store.Worker.Progress.{process_one-Settled, process_one-IsConsistent}

abbrev pub empty_db : Db
empty_db = record { workspaces = []; memories = []; outbox = [] }

-- The tables behind an operation on the tables of the accounts, which has the same workspaces.
abbrev with_workspaces : Db → Accounts.Db → Db
with_workspaces db accounts = record db { workspaces = accounts.workspaces }

abbrev pub Among : Db → List Db → Type 0
Among db [] = ⊥
Among db (d ∷ ds) = (db ≡ d) ⊎ Among db ds

pub data Step (env : Env) (past : List Db) (db : Db) : Db → Type 0 where
  creates :
      (accounts : Accounts.Db) (now : ℕ) (fresh : Option Str) (name : Str) (fs : Faults)
      → accounts.workspaces ≡ db.workspaces
      → Step env past db (with_workspaces db (create_workspace now fresh name accounts fs).1)
  creates_owned :
      (accounts : Accounts.Db) (now : ℕ) (fresh name username : Str) (fs : Faults)
      → accounts.workspaces ≡ db.workspaces
      → Step env past db
          (with_workspaces db (create_workspace_owned now fresh name username accounts fs).1)
  creates_for_key :
      (accounts : Accounts.Db) (now : ℕ) (fresh : Option Str) (key name : Str) (fs : Faults)
      → accounts.workspaces ≡ db.workspaces
      → Step env past db
          (with_workspaces db (create_workspace_for_key env now fresh key name accounts fs).1)
  remembers :
      (now : ℕ) (fresh : Option Str) (ws : Str) (raw : RememberInput) (fs : Faults)
      → Step env past db (remember env now fresh ws raw db fs).1
  moves :
      (now : ℕ) (source target id : Str) (expected : ℤ) (fs : Faults)
      → Step env past db (move env now source target id expected db fs).1
  forgets : (now : ℕ) (ws id : Str) (fs : Faults) → Step env past db (forget env now ws id db fs).1
  -- its SELECT has seen these tables or earlier ones, and others have written since
  reindexes :
      (now : ℕ) (ws : Str) (seen : Db) (fs : Faults)
      → Among seen (db ∷ past)
      → Step env past db (reindex env now ws seen db fs).1
  processes :
      (now clock : ℕ) (locked : Str → Bool) (apply : Memory → Bool) (fs : Faults)
      → Step env past db (process_one now clock locked apply db fs).1

-- The tables that were, the latest first, and those that are.
pub data Reach (env : Env) (start : Db) : List Db → Db → Type 0 where
  here : Reach env start [] start
  step :
      {past : List Db} {db db' : Db}
      → Reach env start past db
      → Step env past db db'
      → Reach env start (db ∷ past) db'

empty_db-IsConsistent : IsConsistent empty_db
unfolding profile_count count
empty_db-IsConsistent = record {
  keyed = tt;
  rows = λ id. unfold lookup in tt;
  profiles = λ w. omega arith;
}

-- Consistency says nothing of the workspaces.
with_workspaces-IsConsistent :
    {db : Db} (accounts : Accounts.Db)
    → IsConsistent db
    → IsConsistent (with_workspaces db accounts)
with_workspaces-IsConsistent accounts c = record {
  keyed = c.keyed;
  rows = c.rows;
  profiles = unfold profile_count in c.profiles;
}

-- What earlier tables are to the present ones.
abbrev Precedes : Db → Db → Type 0
Precedes db seen = Keyed seen.memories × Grows seen db

abbrev AllPrecede : Db → List Db → Type 0
AllPrecede db [] = Unit {0}
AllPrecede db (seen ∷ past) = Precedes db seen × AllPrecede db past

Among-Precedes :
    (db seen : Db) (past : List Db) → AllPrecede db past → Among seen past → Precedes db seen
Among-Precedes db seen [] h m = absurd m
Among-Precedes db seen (d ∷ past) h (inl e) = subst (λ (s : Db). Precedes db s) (sym e) h.0
Among-Precedes db seen (d ∷ past) h (inr m) = Among-Precedes db seen past h.1 m

AllPrecede-Grows :
    (db db' : Db) (past : List Db) → Grows db db' → AllPrecede db past → AllPrecede db' past
AllPrecede-Grows db db' [] more h = tt
AllPrecede-Grows db db' (seen ∷ past) more h = (
  (h.0.0, Later-trans seen.memories db.memories db'.memories h.0.1 more),
  AllPrecede-Grows db db' past more h.1,
)

itself : (db : Db) → IsConsistent db → Precedes db db
itself db c = (c.keyed, Later-refl db.memories)

-- A step keeps the tables consistent, deletes no row and counts no revision down.
Step-Kept :
    {env : Env} {past : List Db} {db db' : Db}
    → IsConsistent db
    → AllPrecede db past
    → Step env past db db'
    → IsConsistent db' × Grows db db'
Step-Kept {db = db} c h (creates accounts now fresh name fs shared) = (
  with_workspaces-IsConsistent (create_workspace now fresh name accounts fs).1 c,
  Later-refl db.memories,
)
Step-Kept {db = db} c h (creates_owned accounts now fresh name username fs shared) = (
  with_workspaces-IsConsistent (create_workspace_owned now fresh name username accounts fs).1 c,
  Later-refl db.memories,
)
Step-Kept {env} {db = db} c h (creates_for_key accounts now fresh key name fs shared) = (
  with_workspaces-IsConsistent (create_workspace_for_key env now fresh key name accounts fs).1 c,
  Later-refl db.memories,
)
Step-Kept {env} {db = db} c h (remembers now fresh ws raw fs) = (
  remember-IsConsistent env now fresh ws raw db fs c,
  remembered-Grows (remember-Outcome env now fresh ws raw db fs),
)
Step-Kept {env} {db = db} c h (moves now source target id expected fs) = (
  move-IsConsistent env now source target id expected db fs c,
  moved-Grows (move-Outcome env now source target id expected db fs),
)
Step-Kept {env} {db = db} c h (forgets now ws id fs) = (
  forget-IsConsistent env now ws id db fs c,
  forgotten-Grows (forget-Settled env now ws id db fs),
)
Step-Kept {env} {past} {db} c h (reindexes now ws seen fs among) =
    let p = Among-Precedes db seen (db ∷ past) (itself db c, h) among in
    reindex-IsConsistent env now ws seen db fs c p.0 p.1
Step-Kept {db = db} c h (processes now clock locked apply fs) = (
  process_one-IsConsistent now clock locked apply db fs c,
  processed-Grows (process_one-Settled now clock locked apply db fs),
)

Reach-Kept :
    {env : Env} {past : List Db} {db : Db}
    → Reach env empty_db past db
    → IsConsistent db × AllPrecede db past
Reach-Kept here = (empty_db-IsConsistent, tt)
Reach-Kept {db = db'} (step {past} {db} r s) =
    let (c, h) = Reach-Kept r in
    let (c', more) = Step-Kept c h s in (c', ((c.keyed, more), AllPrecede-Grows db db' past more h))

-- Whatever run of the three ways to create a workspace, of remember, move, forget, process-one and
-- reindex leads there from empty tables, where the SELECT of a reindex may have seen any earlier
-- tables: every memory has a revision of at least 1, a known kind and, when deleted, no text; it has
-- a job, of its revision or an earlier one and a removal only if it is deleted, or no job and then it
-- is deleted or its indexed revision is its revision; no job is without a memory; and every
-- workspace has at most 100 live profile memories.
pub Reach-IsConsistent :
    {env : Env} {past : List Db} {db : Db} → Reach env empty_db past db → IsConsistent db
Reach-IsConsistent r = (Reach-Kept r).0
