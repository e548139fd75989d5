-- ===== src/Store/Migrate.antt =====
-- `Store.Migrate` of internal/store/migrate.go. What a script does to the tables of the program is
-- not written out: the database is the versions in schema_version and the scripts applied so far,
-- the last one first.
use kasane_mcp.Prelude.{
  ℕ, ◌≤◌, ◌≡◌, refl, Bool, true, false, List, [], ◌∷◌, Option, none, some, ltb, ◌==◌, arith,
  if◌then◌else◌, Result, ok,
}
use kasane_mcp.Tx.{Tx, Faults, pure, query, exec, ◌>>=◌, ◌>>◌, transact}

-- The embedded scripts, and the five statements that run on every start.
pub data Script : Type 0 where
  schema accounts invitations usage decision_feedback : Script
  access_mode can_create_workspaces access_mode_check key_workspaces key_grants : Script

pub record Db : Type 0 where
  pub versions : List ℕ
  pub applied : List Script

-- SELECT max(version) FROM schema_version
unfoldable pub larger : ℕ → Option ℕ → ℕ
larger v none = v
larger v (some w) = if ltb v w then w else v

unfoldable pub max_version : List ℕ → Option ℕ
unfolding larger
max_version [] = none
max_version (v ∷ vs) = some (larger v (max_version vs))

-- version == nil || *version < n
unfoldable pub below : ℕ → Option ℕ → Bool
below n none = true
below n (some v) = ltb v n

unfoldable pub contains : ℕ → List ℕ → Bool
contains v [] = false
contains v (w ∷ ws) = if v == w then true else contains v ws

-- INSERT INTO schema_version(version) VALUES(v) ON CONFLICT DO NOTHING
unfoldable pub put_version : ℕ → List ℕ → List ℕ
unfolding contains
put_version v vs = if contains v vs then vs else v ∷ vs

unfoldable pub record_tx : ℕ → Tx Db (Unit {0})
record_tx v = exec (λ (db : Db). record db { versions = put_version v db.versions })

unfoldable pub apply_tx : Script → Tx Db (Unit {0})
apply_tx s = exec (λ (db : Db). record db { applied = s ∷ db.applied })

-- schema.sql records version 1 itself.
unfoldable pub base_tx : Option ℕ → Tx Db (Unit {0})
base_tx none = exec (λ (db : Db). record db {
  applied = Script.schema ∷ db.applied;
  versions = put_version 1 db.versions;
})
base_tx (some v) = pure tt

unfoldable pub upgrade_tx : Bool → Tx Db (Unit {0}) → Tx Db (Unit {0})
upgrade_tx wanted upgrade = if wanted then upgrade else pure tt

unfoldable pub migrate_tx : Tx Db (Unit {0})
migrate_tx = do
  exec (λ (db : Db). db)
  exec (λ (db : Db). db)
  version ← query (λ (db : Db). max_version db.versions)
  base_tx version
  apply_tx Script.access_mode
  apply_tx Script.can_create_workspaces
  apply_tx Script.access_mode_check
  apply_tx Script.key_workspaces
  apply_tx Script.key_grants
  record_tx 2
  upgrade_tx (below 3 version)
      (do apply_tx Script.accounts; apply_tx Script.invitations; record_tx 3)
  upgrade_tx (below 4 version) (do apply_tx Script.usage; record_tx 4)
  upgrade_tx (below 5 version) (do apply_tx Script.decision_feedback; record_tx 5)

unfoldable pub migrate : Db → Faults → Result (Unit {0}) × Db
migrate = transact migrate_tx

-- A database whose largest version is 5 or above is left as it is, but for the five statements that
-- run on every start and the record of version 2, and the migration returns no error when every
-- statement is carried out.
pub migrate-current :
    (db : Db) (v : ℕ)
    → max_version db.versions ≡ some v
    → 5 ≤ v
    → migrate db [] ≡ (
      ok tt,
      record {
        versions = put_version 2 db.versions;
        applied =
            Script.key_grants ∷ Script.key_workspaces ∷ Script.access_mode_check
            ∷ Script.can_create_workspaces ∷ Script.access_mode ∷ db.applied;
      },
    )
unfolding migrate migrate_tx transact ◌>>=◌ base_tx apply_tx record_tx upgrade_tx below
migrate-current db v is new =
    let five : ltb v 5 ≡ false = ground arith in
    let four : ltb v 4 ≡ false = ground arith in
    let three : ltb v 3 ≡ false = ground arith in rw (is, five, four, three) refl
