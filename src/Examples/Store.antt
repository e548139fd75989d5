-- ===== src/Examples/Store.antt =====
-- Examples of internal/store/store.go.
use kasane_mcp.Store.Worker.Reindexed.{IsRequeued, reindex-IsRequeued}
use kasane_mcp.Store.Outbox.{enqueue, enqueue-lookup}
use kasane_mcp.Prelude.{
  inl, inr, ap, str_eq, str_eq_iff, ◌≢◌, ℕ, ◌+◌, ◌≤◌, ◌<◌, ◌≡◌, is_some, refl, Bool, true, false,
  List, [], ◌∷◌, Option, none, some, Str, ℤ, pos, arith, Result, ok, err, not_found, conflict,
}
use kasane_mcp.Table.{lookup, modify, count, bit, remove}
use kasane_mcp.Core.Types.{Hit}
use kasane_mcp.Core.Ids.{valid_uuid}
use kasane_mcp.Store.Schema.{EventKind, scan_memory, row_in, profile_count, in_profile}
use kasane_mcp.Store.Remember.{remember}
use kasane_mcp.Store.Remember.Create.{new_row}
use kasane_mcp.Store.Remember.Steps.{pending}
use kasane_mcp.Store.Remember.Update.{updated_row, revision_is, stale}
use kasane_mcp.Store.Remember.Outcome as R
use kasane_mcp.Store.Move.{bad_move, moved_row, move}
use kasane_mcp.Store.Move.Outcome as M
use kasane_mcp.Store.Records.{get, forget, rehydrate}
use kasane_mcp.Store.Records.Forgotten as F
use kasane_mcp.Store.Records.Current.{Rehydrated, rehydrate-Rehydrated}
use kasane_mcp.Store.Worker.{reindex, process_one}
use kasane_mcp.Store.Worker.Progress as P
use kasane_mcp.Store.Consistent.{IsConsistent}
use kasane_mcp.Store.Reach.{Step, Reach, empty_db, Reach-IsConsistent}
use kasane_mcp.Store.RoundTrips.{get-created, get-forgotten}
use kasane_mcp.Store.RoundTrips.Changed.{get-updated, get-moved}
use kasane_mcp.Store.RoundTrips.Written.{remember-get}
use kasane_mcp.Accounts.Schema as Accounts
use kasane_mcp.Accounts.Reach as AccountsRun
use kasane_mcp.Accounts.Workspaces.{create_workspace}
use kasane_mcp.Store.Schema.{Db}
use kasane_mcp.Core.Types.{Memory}
use kasane_mcp.Core.Validation.{validate}
use kasane_mcp.Examples.Fixtures.{
  ascii, env, db, home, away, note_id, other_id, note, raw, accepted, change, outdated,
}

remember-Outcome_example :
    R.Outcome env 5
      (some other_id)
      home
      raw
      db
      (remember env 5 (some other_id) home raw db []).0
      (remember env 5 (some other_id) home raw db []).1
remember-Outcome_example = R.remember-Outcome env 5 (some other_id) home raw db []

move-Outcome_example :
    M.Outcome env 5 home away note_id
      (pos 1)
      db
      (move env 5 home away note_id (pos 1) db []).0
      (move env 5 home away note_id (pos 1) db []).1
move-Outcome_example = M.move-Outcome env 5 home away note_id (pos 1) db []

forget-Settled_example :
    F.Settled env 5 home note_id db
      (forget env 5 home note_id db []).0
      (forget env 5 home note_id db []).1
forget-Settled_example = F.forget-Settled env 5 home note_id db []

process_one-Settled_example :
    P.Settled 5 5
      (λ _. true)
      db
      (process_one 5 5 (λ _. false) (λ _. true) db []).0
      (process_one 5 5 (λ _. false) (λ _. true) db []).1
process_one-Settled_example = P.process_one-Settled 5 5 (λ _. false) (λ _. true) db []

abbrev hits : List Hit
hits = record { id = note_id; revision = 1; score = 7 } ∷ []

rehydrate-Rehydrated_example :
    Rehydrated env home
      (λ _. db)
      hits
      db
      (rehydrate env home (λ _. db) hits db []).0
      (rehydrate env home (λ _. db) hits db []).1
rehydrate-Rehydrated_example = rehydrate-Rehydrated env home home (λ _. db) hits db [] refl

accepted_run : validate ascii raw ≡ ok accepted
unfolding validate kasane_mcp.Core.Validation.bad_text kasane_mcp.GoText.trim_space
    kasane_mcp.GoText.is_space kasane_mcp.GoText.len kasane_mcp.GoText.valid_string
    kasane_mcp.Core.Validation.unsearchable kasane_mcp.GoText.contains_func
    kasane_mcp.Core.Validation.bad_metadata kasane_mcp.Core.Validation.bad_update
    kasane_mcp.Core.Validation.normalize_tags kasane_mcp.GoText.to_lower
    kasane_mcp.Core.Validation.member kasane_mcp.Prelude.str_eq
accepted_run = refl

change_run : validate ascii change ≡ ok change
unfolding validate kasane_mcp.Core.Validation.bad_text kasane_mcp.GoText.trim_space
    kasane_mcp.GoText.is_space kasane_mcp.GoText.len kasane_mcp.GoText.valid_string
    kasane_mcp.Core.Validation.unsearchable kasane_mcp.GoText.contains_func
    kasane_mcp.Core.Validation.bad_metadata kasane_mcp.Core.Validation.bad_update
    kasane_mcp.Core.Ids.valid_id kasane_mcp.Core.Validation.normalize_tags
    kasane_mcp.GoText.to_lower kasane_mcp.Core.Validation.member
change_run = refl

outdated_run : validate ascii outdated ≡ ok outdated
unfolding validate kasane_mcp.Core.Validation.bad_text kasane_mcp.GoText.trim_space
    kasane_mcp.GoText.is_space kasane_mcp.GoText.len kasane_mcp.GoText.valid_string
    kasane_mcp.Core.Validation.unsearchable kasane_mcp.GoText.contains_func
    kasane_mcp.Core.Validation.bad_metadata kasane_mcp.Core.Validation.bad_update
    kasane_mcp.Core.Ids.valid_id kasane_mcp.Core.Validation.normalize_tags
    kasane_mcp.GoText.to_lower kasane_mcp.Core.Validation.member
outdated_run = refl

note_id_run : valid_uuid note_id ≡ true
unfolding valid_uuid
note_id_run = refl

other_id_run : valid_uuid other_id ≡ true
unfolding valid_uuid
other_id_run = refl

note_run : row_in home note_id false db ≡ some note
unfolding row_in lookup kasane_mcp.Prelude.str_eq
note_run = refl

note_any_run : row_in home note_id true db ≡ some note
unfolding row_in lookup kasane_mcp.Prelude.str_eq
note_any_run = refl

home_run : is_some (lookup home db.workspaces) ≡ true
unfolding lookup kasane_mcp.Prelude.str_eq
home_run = refl

away_run : is_some (lookup away db.workspaces) ≡ true
unfolding lookup kasane_mcp.Prelude.str_eq
away_run = refl

free_run : is_some (lookup other_id db.memories) ≡ false
unfolding lookup kasane_mcp.Prelude.str_eq
free_run = refl

room_run : (w : Str) → profile_count w db < 100
unfolding profile_count count
room_run w = few (in_profile w note)
  where
    few : (b : Bool) → bit b + 0 < 100
    few b = ground arith

old_run : revision_is (pos 2) note ≡ false
unfolding revision_is
old_run = refl

held_run : revision_is (pos 1) note ≡ true
unfolding revision_is
held_run = refl

current_run : stale change note ≡ false
unfolding stale
current_run = refl

good_run : bad_move home away note_id (pos 1) ≡ false
unfolding bad_move valid_uuid kasane_mcp.Prelude.str_eq
good_run = refl

get-created_example :
    (get env home other_id (remember env 5 (some other_id) home raw db []).1 []).0
    ≡ ok (R.waiting other_id (R.created_row 5 home accepted))
get-created_example =
    get-created env 5 db home home refl other_id raw accepted accepted_run refl refl home_run
      free_run (λ _. room_run home) other_id_run refl

get-forgotten_example :
    (get env home note_id (forget env 5 home note_id db []).1 []).0 ≡ err not_found
get-forgotten_example =
    get-forgotten env 5 db home home refl note_id note_id note note_id_run refl note_run
      (omega arith)

abbrev updated : Memory
updated = R.waiting note_id (R.rewritten_row 5 change note)

update_run : (remember env 5 none home change db []).0 ≡ ok updated
unfolding remember validate kasane_mcp.Core.Validation.bad_text kasane_mcp.GoText.trim_space
    kasane_mcp.GoText.is_space kasane_mcp.GoText.len kasane_mcp.GoText.valid_string
    kasane_mcp.Core.Validation.unsearchable kasane_mcp.GoText.contains_func
    kasane_mcp.Core.Validation.bad_metadata kasane_mcp.Core.Validation.bad_update
    kasane_mcp.Core.Ids.valid_id kasane_mcp.Core.Validation.normalize_tags
    kasane_mcp.GoText.to_lower kasane_mcp.Core.Validation.member
    kasane_mcp.Store.Remember.remember_valid valid_uuid kasane_mcp.Core.Ids.all_hex
    kasane_mcp.Core.Ids.without_dashes kasane_mcp.GoText.bytes kasane_mcp.GoText.keep_right
    kasane_mcp.GoText.rune_bytes kasane_mcp.GoText.trim_left kasane_mcp.GoText.trim_right
    kasane_mcp.Prelude.str_eq enqueue kasane_mcp.Store.Outbox.outbox_tx
    kasane_mcp.Store.Remember.Create.create_tx kasane_mcp.Store.Remember.Create.has_key
    kasane_mcp.Store.Remember.Create.idempotency kasane_mcp.Store.Remember.Create.insert_memory
    kasane_mcp.Store.Remember.Create.insert_tx kasane_mcp.Store.Remember.Create.key_taken new_row
    kasane_mcp.Store.Remember.Create.replay_tx kasane_mcp.Store.Remember.Create.same
    kasane_mcp.Store.Remember.Create.tags_eq kasane_mcp.Store.Remember.Steps.limit_profile pending
    kasane_mcp.Store.Remember.Steps.rewrite_row revision_is
    kasane_mcp.Store.Remember.Update.rewrite_tx stale kasane_mcp.Store.Remember.Update.update_memory
    kasane_mcp.Store.Remember.Update.update_tx updated_row kasane_mcp.Store.Remember.keyed_tx
    kasane_mcp.Store.Remember.remember_tx kasane_mcp.Store.Remember.workspace_tx
    kasane_mcp.Store.Schema.cast_tx in_profile kasane_mcp.Store.Schema.is_profile profile_count
    row_in scan_memory kasane_mcp.Store.Schema.visible count kasane_mcp.Table.find_row lookup modify
    kasane_mcp.Tx.exec kasane_mcp.Tx.pure kasane_mcp.Tx.query kasane_mcp.Tx.raise
    kasane_mcp.Tx.statement kasane_mcp.Tx.transact kasane_mcp.Tx.◌>>=◌
update_run = refl

remember-get_example :
    (get env home note_id (remember env 5 none home change db []).1 []).0 ≡ ok updated
remember-get_example = remember-get env 5 none home change db [] updated update_run note_id_run refl

abbrev moved : Memory
moved = R.waiting note_id (M.transferred_row 5 away note)

move_run : (move env 5 home away note_id (pos 1) db []).0 ≡ ok moved
unfolding move bad_move valid_uuid kasane_mcp.Prelude.str_eq kasane_mcp.Tx.transact
    kasane_mcp.Store.Move.move_tx kasane_mcp.Store.Move.lock_both_tx kasane_mcp.Store.Move.lock_tx
    kasane_mcp.Store.Schema.cast_tx lookup row_in kasane_mcp.Store.Remember.Steps.limit_profile
    kasane_mcp.Store.Schema.is_profile profile_count count in_profile
    kasane_mcp.Store.Move.transfer_tx kasane_mcp.GoText.len kasane_mcp.Store.Move.move_memory
    moved_row kasane_mcp.Store.Move.str_ltb enqueue kasane_mcp.Store.Outbox.outbox_tx pending
    kasane_mcp.Store.Remember.Steps.rewrite_row revision_is scan_memory
    kasane_mcp.Store.Schema.visible modify kasane_mcp.Tx.exec kasane_mcp.Tx.pure kasane_mcp.Tx.query
    kasane_mcp.Tx.raise kasane_mcp.Tx.statement kasane_mcp.Tx.◌>>=◌
move_run = refl

apart_test : str_eq home away ≡ false
unfolding str_eq
apart_test = refl

apart : ◌≢◌ {A = Option Str} (some home) (some away)
apart e = absurd (ground (arith, str_eq_iff home away, apart_test, e))

-- The tables of the accounts before the first workspace.
abbrev no_accounts : Accounts.Db
no_accounts = AccountsRun.empty_db

abbrev opened : Db
opened = record empty_db {
  workspaces = (create_workspace 4 (some home) (b'p' ∷ []) no_accounts []).1.workspaces;
}

-- A workspace is created, a memory is remembered in it, and it is forgotten.
abbrev written : Db
written = (remember env 5 (some other_id) home raw opened []).1

opened_run : is_some (lookup home opened.workspaces) ≡ true
unfolding lookup create_workspace kasane_mcp.GoText.trim_space kasane_mcp.GoText.is_space
    kasane_mcp.Accounts.Workspaces.create_with kasane_mcp.Tx.run
    kasane_mcp.Accounts.Workspaces.insert_returning Accounts.insert_workspace str_eq
opened_run = refl

empty_run : is_some (lookup other_id opened.memories) ≡ false
unfolding lookup
empty_run = refl

-- The run below does write a memory.
written_run :
    (get env home other_id written []).0 ≡ ok (R.waiting other_id (R.created_row 5 home accepted))
unfolding profile_count count
written_run =
    get-created env 5 opened home home refl other_id raw accepted accepted_run refl refl opened_run
      empty_run (λ _. omega arith) other_id_run refl

abbrev forgotten : Db
forgotten = (forget env 6 home other_id written []).1

-- The reindex has read the memory before it was forgotten.
Reach-IsConsistent_example : IsConsistent (reindex env 7 home written forgotten []).1
Reach-IsConsistent_example = Reach-IsConsistent {env = env} (
    Reach.step
      (Reach.step
        (Reach.step
          (Reach.step Reach.here (Step.creates no_accounts 4 (some home) (b'p' ∷ []) [] refl))
          (Step.remembers 5 (some other_id) home raw []))
        (Step.forgets 6 home other_id []))
      (Step.reindexes 7 home written [] (inr (inl refl))))

stored_run : lookup note_id db.memories ≡ some note
unfolding lookup str_eq
stored_run = refl

note_live : R.IsLive home note_id db note
note_live = record { found = stored_run; home = refl; alive = refl }

get-updated_example :
    (get env home note_id (remember env 5 none home change db []).1 []).0 ≡ ok updated
get-updated_example =
    get-updated env 5 db note_id note (omega arith) (omega arith) home home none change change refl
      change_run refl note_id_run refl home_run note_live refl (λ _. room_run home)

distinct : home ≢ away
distinct e = apart (ap some e)

get-moved_example :
    ((get env away note_id (move env 5 home away note_id (pos 1) db []).1 []).0 ≡ ok moved)
    × ((get env home note_id (move env 5 home away note_id (pos 1) db []).1 []).0 ≡ err not_found)
get-moved_example =
    get-moved env 5 db note_id note (omega arith) (omega arith) home home away away note_id (pos 1)
      good_run note_id_run refl refl distinct refl home_run away_run note_live refl
      (λ _. room_run away)

enqueue-lookup_example :
    lookup note_id (enqueue 9 note_id EventKind.delete 2 db.outbox)
    ≡ some (record {
      event_kind = EventKind.delete;
      revision = 2;
      attempts = 0;
      next_attempt = 9;
      created_at = 1;
    })
unfolding lookup str_eq
enqueue-lookup_example = enqueue-lookup 9 note_id EventKind.delete 2 db.outbox note_id

reindex_run : (reindex env 7 home db db []).0 ≡ ok tt
unfolding reindex kasane_mcp.Tx.transact kasane_mcp.Store.Worker.reindex_tx
    kasane_mcp.Store.Worker.scope_tx kasane_mcp.Store.Schema.cast_tx
    kasane_mcp.Store.Worker.requeue_tx kasane_mcp.Store.Worker.live_items str_eq
    kasane_mcp.Store.Outbox.outbox_tx
reindex_run = refl

reindex-IsRequeued_example : IsRequeued 7 (reindex env 7 home db db []).1 note_id
reindex-IsRequeued_example =
    reindex-IsRequeued env 7 home db db [] note_id note stored_run refl (inr (refl, refl))
      reindex_run
