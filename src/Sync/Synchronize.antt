-- ===== src/Sync/Synchronize.antt =====
-- synchronize.ts: `runSynchronize`, over a device whose state anybody may change while the code waits.
pub mod Run
pub mod Attempts
pub mod Costs
pub mod Steps
pub mod Verdicts
pub mod Report
pub mod Tests
use remelon_db.Prelude.{
  ℕ, ◌+◌, ◌-◌, zero, suc, String, Bool, true, false, not, ◌&&◌, Option, none, some, List, [], ◌∷◌,
  ◌++◌, ◌==◌, map, max, leb, length, is_empty, filter, is_some, if◌then◌else◌,
}
use remelon_db.Prelude.Map.{Map}
use remelon_db.Prelude.Result.{Result, ok, err}
use remelon_db.Wire.{
  DirtyRaw, TableChanges, SyncChanges, SyncPullArgs, SyncPullResult, pulled, resync_required,
  SyncPushArgs, Pushed, SyncPushResult, pushed, conflict,
}
use remelon_db.Schema.Tables.{AppSchema}
use remelon_db.Schema.Migrations.{SchemaMigrations}
use remelon_db.RawRecord.{RawRecord}
use remelon_db.Sync.{SyncError, Operation}
use remelon_db.Sync.Apply.{ApplyOptions, apply_remote_changes}
use remelon_db.Sync.Mark.{
  DirtyRecordSnapshot, LocalChanges, DirtyRows, fetch_local_changes, mark_local_changes_as_synced,
}
use remelon_db.Sync.Migration.{MigrationError, MigrationInfo, migration_info}

-- an integer, for a difference that may be below zero
pub data ℤ : Type 0 where
  pos negsuc : ℕ → ℤ

abbrev pub minus : ℕ → ℕ → ℤ
minus m n = if leb n m then pos (m - n) else negsuc (n - m - 1)

pub data Failure : Type 0 where
  aborted resync_without_cursor committed_elsewhere cursor_without_changes : Failure
  bad_migration : MigrationError → Failure
  bad_changes : SyncError → Failure
  still_conflicting : ℕ → Failure
  outside : String → Failure

pub data LeaseState : Type 0 where
  acquired unavailable lost : LeaseState

pub record SynchronizeResult : Type 0 where
  pub lease : LeaseState
  pub resynced : Bool
  pub pulled : ℕ
  pub pushed : ℤ
  pub rejected : ℕ
  pub rejected_records : Map (List String)
  pub retry_count : ℕ

-- What a run asks of the server and does to the database, in order.
pub data Call : Type 0 where
  pulled_with : SyncPullArgs → Call
  pushed_with : SyncPushArgs DirtyRaw → Call
  applied : SyncChanges DirtyRaw → Call
  saved : String → String → Call
  marked : LocalChanges → Call

abbrev pub table_rows : String × TableChanges DirtyRaw → ℕ
table_rows e = length e.1.created + length e.1.updated + length e.1.deleted

unfoldable pub count_rows : SyncChanges DirtyRaw → ℕ
count_rows [] = 0
count_rows (e ∷ tables) = table_rows e + count_rows tables

-- The database, its local storage, the abort signal, the lease and the transport. Each operation
-- that waits returns the state that it leaves, in which others may have written meanwhile;
-- `pull_changes` and `push_changes` are followed by the validators. `live` is a record as it is now,
-- for the copy that was taken.
pub record Device : Type 1 where
  pub World : Type 0
  pub get_item : String → World → Option String
  pub set_item : String → String → World → World
  pub is_aborted : World → Bool
  pub request_sync_turn : Option (World → World × Result Failure Bool)
  pub pull_changes : SyncPullArgs → World → World × Result Failure (SyncPullResult DirtyRaw)
  pub push_changes :
      Option (SyncPushArgs DirtyRaw → World → World × Result Failure (SyncPushResult DirtyRaw))
  pub dirty_rows : World → String → DirtyRows
  pub query : World → String → Option (List String) → List RawRecord
  pub live : World → RawRecord → RawRecord
  pub batch : List (String × List Operation) → World → World × Result Failure (Unit {0})
  pub fresh_id : World → String
  pub encode_base64 : List ℕ → String
  pub decode_base64 : String → Result SyncError (List ℕ)
  pub number_of : String → ℕ
  pub version_text : ℕ → String
  pub schema : AppSchema
  pub migrations : Option SchemaMigrations
  pub migrations_enabled_at : Option ℕ
  pub conflict_resolver : Option (String → RawRecord → DirtyRaw → RawRecord → RawRecord)
  pub conflict_retries : Option ℕ

abbrev pub cursor_key : String
cursor_key = "__sync_cursor"

abbrev pub last_schema_version_key : String
last_schema_version_key = "__sync_last_schema_version"

-- a computation on the device: the state it leaves, its calls, and what it returns or throws
pub record Outcome (World A : Type 0) : Type 0 where
  pub world : World
  pub calls : List Call
  pub result : Result Failure A

module _ {World : Type 0} where
  abbrev pub return : {A : Type 0} → A → World → Outcome World A
  return a w = record { world = w; calls = []; result = ok a }

  abbrev pub throw : {A : Type 0} → Failure → World → Outcome World A
  throw e w = record { world = w; calls = []; result = err e }

  -- an operation of the device, with what it counts as
  abbrev pub perform : {A : Type 0} → List Call → World × Result Failure A → Outcome World A
  perform calls (w, result) = record { world = w; calls = calls; result = result }

  -- await
  unfoldable pub await :
      {A B : Type 0} → Outcome World A → (A → World → Outcome World B) → Outcome World B
  await {A} {B} o next = at o.result
    where
      at : Result Failure A → Outcome World B
      at (err e) = record { world = o.world; calls = o.calls; result = err e }
      at (ok a) =
          let rest = next a o.world in
          record { world = rest.world; calls = o.calls ++ rest.calls; result = rest.result }
