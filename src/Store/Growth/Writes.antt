-- ===== src/Store/Growth/Writes.antt =====
-- The writes of `Remember`, `Move`, `Forget` and `ProcessOne` of internal/store/store.go: no row is
-- deleted, and no revision counts down.
use kasane_mcp.Prelude.{ℕ, ◌≡◌, sym, subst, Bool, Option, Str, ℤ, arith, Result}
use kasane_mcp.Core.Types.{Memory, RememberInput}
use kasane_mcp.Store.Schema.{Env, Db}
use kasane_mcp.Store.Remember.Outcome as R
use kasane_mcp.Store.Move.Outcome as M
use kasane_mcp.Store.Records.Forgotten as F
use kasane_mcp.Store.Worker.Progress as P
use kasane_mcp.Store.Growth.{Later, Later-refl, Later-modify, Later-insert}

-- The tables of two stores.
abbrev pub Grows : Db → Db → Type 0
Grows db db' = Later db.memories db'.memories

as_equal : (db : Db) {db' db'' : Db} → db' ≡ db'' → Grows db db'' → Grows db db'
as_equal db e g = subst (λ (d : Db). Grows db d) (sym e) g

Remembered-Grows :
    {env : Env} {now : ℕ} {fresh : Option Str} {w : Str} {in' : RememberInput} {db db' : Db}
    {m : Memory}
    → R.Remembered env now fresh w in' db m db'
    → Grows db db'
Remembered-Grows {db = db} (R.Remembered.replayed id found row held like there alive m_eq db_eq) =
    as_equal db db_eq (Later-refl db.memories)
Remembered-Grows {now = now} {w = w} {in' = in'} {db = db}
      (R.Remembered.created id new drawn absent free limit m_eq db_eq) =
    as_equal db db_eq (Later-insert id (R.created_row now w in') db.memories absent)
Remembered-Grows {now = now} {in' = in'} {db = db}
      (R.Remembered.updated id row reads l current limit m_eq db_eq) =
    as_equal db db_eq (Later-modify id (R.rewritten_row now in') db.memories (λ row. omega arith))

pub remembered-Grows :
    {env : Env} {now : ℕ} {fresh : Option Str} {ws : Str} {raw : RememberInput} {db db' : Db}
    {r : Result Memory}
    → R.Outcome env now fresh ws raw db r db'
    → Grows db db'
remembered-Grows {db = db} (R.Outcome.refused e) = Later-refl db.memories
remembered-Grows (R.Outcome.done w in' valid named r) = Remembered-Grows r

pub moved-Grows :
    {env : Env} {now : ℕ} {source target id : Str} {expected : ℤ} {db db' : Db} {r : Result Memory}
    → M.Outcome env now source target id expected db r db'
    → Grows db db'
moved-Grows {db = db} (M.Outcome.refused e) = Later-refl db.memories
moved-Grows {now = now} {db = db} (M.Outcome.done t) =
    let v = t.moved in
    as_equal db v.db_eq
      (Later-modify t.id (M.transferred_row now t.to) db.memories (λ row. omega arith))

Forgotten-Grows : {now : ℕ} {w id : Str} {db db' : Db} → F.Forgotten now w id db db' → Grows db db'
Forgotten-Grows {db = db} (F.Forgotten.absent missing db_eq) =
    as_equal db db_eq (Later-refl db.memories)
Forgotten-Grows {now} {w} {id} {db} (F.Forgotten.redacted row l db_eq) =
    as_equal db db_eq (Later-modify id (F.redacted_row now) db.memories (λ row. omega arith))

pub forgotten-Grows :
    {env : Env} {now : ℕ} {ws id : Str} {db db' : Db} {r : Result (Unit {0})}
    → F.Settled env now ws id db r db'
    → Grows db db'
forgotten-Grows {db = db} (F.Settled.refused e) = Later-refl db.memories
forgotten-Grows (F.Settled.done o) = Forgotten-Grows o.forgotten

Processed-Grows :
    {now clock : ℕ} {apply : Memory → Bool} {db db' : Db} {worked : Bool}
    → P.Processed now clock apply db worked db'
    → Grows db db'
Processed-Grows {db = db} P.Processed.idle = Later-refl db.memories
Processed-Grows {db = db} (P.Processed.removed id row job k taken event) = Later-refl db.memories
Processed-Grows {db = db} (P.Processed.indexed id row job k taken event) =
    Later-modify id P.settled_row db.memories (λ row. omega arith)
Processed-Grows {db = db} (P.Processed.retried id row job k refused) = Later-refl db.memories

pub processed-Grows :
    {now clock : ℕ} {apply : Memory → Bool} {db db' : Db} {r : Result Bool}
    → P.Settled now clock apply db r db'
    → Grows db db'
processed-Grows {db = db} (P.Settled.failed e) = Later-refl db.memories
processed-Grows (P.Settled.done p) = Processed-Grows p
