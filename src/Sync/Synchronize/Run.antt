-- ===== src/Sync/Synchronize/Run.antt =====
-- synchronize.ts: the phases of `runSynchronize`, its attempts, and what it reports.
use remelon_db.Prelude.{
  ℕ, ◌+◌, String, Bool, true, false, not, Option, none, some, List, [], ◌∷◌, ◌==◌, map, length,
  is_empty, filter, is_some, if◌then◌else◌,
}
use remelon_db.Prelude.Map.{Map}
use remelon_db.Prelude.Result.{ok, err}
use remelon_db.Wire.{DirtyRaw, SyncChanges, SyncPullArgs, SyncPullResult, pulled, resync_required}
use remelon_db.RawRecord.{RawRecord}
use remelon_db.Sync.Apply.{ApplyOptions, apply_remote_changes}
use remelon_db.Sync.Mark.{DirtyRecordSnapshot, LocalChanges, mark_local_changes_as_synced}
use remelon_db.Sync.Migration.{MigrationInfo, migration_info}
use remelon_db.Sync.Synchronize.{
  pos, minus, aborted, resync_without_cursor, committed_elsewhere, bad_migration, bad_changes,
  acquired, SynchronizeResult, pulled_with, applied, saved, marked, count_rows, Device, cursor_key,
  last_schema_version_key, Outcome, return, throw, perform, await,
}

-- what a pull brought, after a second one where the server demanded a resync
pub record Received : Type 0 where
  pub changes : SyncChanges DirtyRaw
  pub cursor : String
  pub replacement : Bool

-- `resynced` and `pulledTotal`
pub record Totals : Type 0 where
  pub resynced : Bool
  pub pulled : ℕ

-- how an attempt ends: with a result, or with a conflict
pub data Verdict : Type 0 where
  finished : SynchronizeResult → Verdict
  retry : Totals → Verdict

abbrev pub same_cursor : Option String → Option String → Bool
same_cursor none none = true
same_cursor (some a) (some b) = a == b
same_cursor a b = false

-- the tables with rejections
unfoldable pub rejected_records : Map (List String) → Map (List String)
rejected_records rejected = filter (λ e. not (is_empty e.1)) rejected

unfoldable pub count_ids : Map (List String) → ℕ
count_ids [] = 0
count_ids (e ∷ tables) = length e.1 + count_ids tables

-- `doneWithoutPush`
abbrev pub done_without_push : ℕ → Totals → SynchronizeResult
done_without_push tries t = record {
  lease = acquired;
  resynced = t.resynced;
  pulled = t.pulled;
  pushed = pos 0;
  rejected = 0;
  rejected_records = [];
  retry_count = tries;
}

-- the result of a push that was accepted
abbrev pub report : ℕ → Totals → LocalChanges → Map (List String) → ℕ → SynchronizeResult
report tries t local rejected more =
    let refused = rejected_records rejected in
    record {
      lease = acquired;
      resynced = t.resynced;
      pulled = t.pulled + more;
      pushed = minus (count_rows local.changes) (count_ids refused);
      rejected = count_ids refused;
      rejected_records = refused;
      retry_count = tries;
    }

module _ (d : Device) where
  -- throwIfAborted(options.signal)
  unfoldable pub check_abort : d.World → Outcome d.World (Unit {0})
  check_abort w = if d.is_aborted w then throw aborted w else return tt w

  -- applyRemoteChanges(database, changes, options)
  unfoldable pub apply : Bool → SyncChanges DirtyRaw → d.World → Outcome d.World (Unit {0})
  unfolding apply_remote_changes
  apply replacement changes w =
      let options : ApplyOptions = record {
        conflict_resolver = d.conflict_resolver;
        replacement = replacement;
      } in
      elim (apply_remote_changes d.decode_base64 (d.query w) options (d.fresh_id w) d.schema
        changes) [
          | err e ↦ throw (bad_changes e) w
          | ok operations ↦ perform (applied changes ∷ []) (d.batch operations w)
        ]

  -- localStorage.set(key, value)
  abbrev pub save : String → String → d.World → Outcome d.World (Unit {0})
  save key value w = perform (saved key value ∷ []) (d.set_item key value w, ok tt)

  -- the info for the pull, from the version that was saved
  unfoldable pub find_migration : Option String → d.World → Outcome d.World MigrationInfo
  unfolding migration_info
  find_migration cursor w =
      let stored : Option ℕ = elim (d.get_item last_schema_version_key w) [
        | none ↦ none
        | some text ↦ some (d.number_of text)
      ] in
      elim (migration_info d.schema d.migrations stored d.migrations_enabled_at
        (not (is_some cursor))) [ err e ↦ throw (bad_migration e) w | ok info ↦ return info w ]

  -- a pull
  unfoldable pub pull : SyncPullArgs → d.World → Outcome d.World (SyncPullResult DirtyRaw)
  pull args w = perform (pulled_with args ∷ []) (d.pull_changes args w)

  -- the answer to a pull without a cursor
  abbrev pub replaced : SyncPullResult DirtyRaw → d.World → Outcome d.World Received
  replaced (pulled changes cursor) w =
      return (record { changes = changes; cursor = cursor; replacement = true }) w
  replaced resync_required w = throw resync_without_cursor w

  -- the answer to the first pull, with a second one from scratch where a resync is required
  unfoldable pub receive : SyncPullResult DirtyRaw → d.World → Outcome d.World Received
  unfolding pull await
  receive (pulled changes cursor) w =
      return (record { changes = changes; cursor = cursor; replacement = false }) w
  receive resync_required w =
      await (pull (record { cursor = none; schema_version = d.schema.version; migration = none }) w)
        replaced

  -- the write block of the pull phase
  unfoldable pub apply_pulled :
      Option String → Bool → Received → d.World → Outcome d.World (Unit {0})
  unfolding apply await
  apply_pulled cursor save_version r w =
      if not (same_cursor (d.get_item cursor_key w) cursor)
      then throw committed_elsewhere w
      else await (apply r.replacement r.changes w) (λ _ w1.
        await (save cursor_key r.cursor w1) (λ _ w2.
          if save_version
          then save last_schema_version_key (d.version_text d.schema.version) w2
          else return tt w2))

  -- the interleaved changes of a push
  unfoldable pub adopt :
      Option String → Option (SyncChanges DirtyRaw) → String → d.World → Outcome d.World ℕ
  unfolding apply await count_rows
  adopt (some next) (some changes) cursor w =
      if same_cursor (d.get_item cursor_key w) (some cursor)
      then await (apply false changes w)
          (λ _ w1. await (save cursor_key next w1) (λ _ w2. return (count_rows changes) w2))
      else return 0 w
  adopt next changes cursor w = return 0 w

  -- the record as it is, and the copy of it that was taken
  abbrev pub snapshot_of : d.World → RawRecord → DirtyRecordSnapshot
  snapshot_of w frozen = record { current = d.live w frozen; frozen = frozen }

  -- markLocalChangesAsSynced(database, localChanges, rejected)
  unfoldable pub mark : LocalChanges → Map (List String) → d.World → Outcome d.World (Unit {0})
  unfolding mark_local_changes_as_synced
  mark local rejected w =
      let snapshots =
        map (λ (e : String × List RawRecord). (e.0, map (snapshot_of w) e.1)) local.dirty_records in
      let lookup = λ (table : String) (ids : List String). d.query w table (some ids) in
      perform (marked local ∷ [])
        (d.batch (mark_local_changes_as_synced lookup local.changes snapshots rejected) w)

  -- is the lease still held?
  unfoldable pub confirm_turn : d.World → Outcome d.World Bool
  confirm_turn w = elim d.request_sync_turn [
    | none ↦ return true w
    | some request ↦ perform [] (request w)
  ]
