-- ===== src/Server/Protocol/Tests.antt =====
-- Runs of the engine over the in-memory store, and the protocol's theorems at concrete inputs.
use remelon_db.Prelude.{
  ◌≤◌, String, ◌≡◌, ◌↔◌, refl, true, false, not, ◌&&◌, ◌||◌, none, some, List, [], ◌∷◌, arith, ◌==◌,
  eq_iff, if◌then◌else◌,
}
use remelon_db.Prelude.Map.{get, set, remove}
use remelon_db.Prelude.Set.{member, unique}
use remelon_db.Wire.{
  string, DirtyRaw, SyncChanges, SyncPullArgs, pulled, resync_required, SyncPushArgs, Pushed,
  pushed, conflict,
}
use remelon_db.Server.Store.{WireRow}
use remelon_db.Server.Cursor.{print_rev, decode_cursor, max_safe_integer}
use remelon_db.Server.Cursor.RoundTrip.{decode_cursor_iff}
use remelon_db.Server.Memory.{
  MemoryState, create_memory_store, memory_store, changed_since, max_rev, current_revs,
  tombstoned_ids, foreign_ids, upsert, tombstone, is_dead,
}
use remelon_db.Server.Memory.Rows.{row_at, revised, buried, last_stated, upsert_lem, tombstone_lem}
use remelon_db.Server.Memory.Revisions.{IsStamped}
use remelon_db.Server.Memory.Collect.{is_newer, changed_since-IsFiled}
use remelon_db.Server.Engine.{Options, Entry, ok, reject, rejected_ids, drop_ids}
use remelon_db.Server.Engine.Partition.{parse, parse_table}
use remelon_db.Server.Engine.Partition.Named.{is_requested}
use remelon_db.Server.Engine.Screen.{each, own, scan, validate_rows, bury}
use remelon_db.Server.Engine.Hooks.{run_hooks}
use remelon_db.Server.Engine.Apply.{upsert_all, tombstone_all}
use remelon_db.Server.Engine.Reply.{to_changes, collect_since}
use remelon_db.Server.Engine.Reply.Laws.{reply_mentions}
use remelon_db.Server.Engine.Push.{push, screen, table_names}
use remelon_db.Server.Engine.Push.Calls.{Call, run_calls, is_settled}
use remelon_db.Server.Engine.Push.Settled.{push_accounts}
use remelon_db.Server.Engine.Push.Echo.{push_no_echo}
use remelon_db.Server.Engine.Push.Outcome.{HasConflict, push_conflict_keeps, push_conflict_iff}
use remelon_db.Server.Engine.Pull.{pull}
use remelon_db.Server.Engine.Pull.Laws.{IsServed, pull_resync_iff}
use remelon_db.Server.Protocol.{
  push-IsStamped, push_isolated, push_no_resurrection, pull_reports, pull_settles,
}

abbrev milk : DirtyRaw
milk = ("id", string "a") ∷ ("name", string "milk") ∷ []

abbrev options : Options memory_store
options = record {
  tables = ("todos", record { validate = none; append_only = false }) ∷ [];
  cross_validate = none;
  cross_validate_changes = none;
}

abbrev request : SyncPushArgs DirtyRaw
request = record {
  changes = ("todos", record { created = milk ∷ []; updated = []; deleted = "b" ∷ [] }) ∷ [];
  cursor = "0";
}

abbrev milk_row : WireRow
milk_row = record { id = "a"; raw = milk }

abbrev stored : MemoryState
stored = record {
  scopes =
      ("u1", ("todos", ("a", record { row = milk_row; rev = 1; deleted = false }) ∷ []) ∷ []) ∷ [];
  rev = 2;
  floor = 0;
}

abbrev answer : Pushed WireRow
answer = record {
  cursor = some "1";
  changes = some (("todos", record { created = []; updated = []; deleted = [] }) ∷ []);
  rejected = [];
}

abbrev parsed : List Entry
parsed =
    record { table = "todos"; rows = milk_row ∷ []; deletes = "b" ∷ []; all_ids = "a" ∷ "b" ∷ [] }
    ∷ []

first_push : push memory_store options "u1" request create_memory_store ≡ ok (pushed answer, stored)
unfolding push parse parse_table each own scan validate_rows bury run_hooks screen upsert_all
    tombstone_all to_changes collect_since decode_cursor print_rev get set remove member unique
    changed_since max_rev current_revs tombstoned_ids foreign_ids upsert tombstone reject drop_ids
first_push = refl

-- The cursor "0" is now stale for "a".
second_push : push memory_store options "u1" request stored ≡ ok (conflict, stored)
unfolding push parse parse_table each own scan decode_cursor get set remove member unique max_rev
    current_revs foreign_ids
second_push = refl

decode_cursor_iff_example :
    (decode_cursor "10" ≡ some 10) ↔ (("10" ≡ print_rev 10) × (10 ≤ max_safe_integer))
decode_cursor_iff_example = decode_cursor_iff "10" 10

push_conflict_keeps_example : stored ≡ stored
push_conflict_keeps_example =
    push_conflict_keeps memory_store options "u1" request stored stored second_push

push_conflict_iff_example :
    (push memory_store options "u1" request stored ≡ ok (conflict, stored))
    ↔ HasConflict memory_store options "u1" 0 parsed stored
push_conflict_iff_example =
    push_conflict_iff memory_store options "u1" request stored 0 parsed
      (unfold decode_cursor in refl) (unfold parse parse_table get set remove member unique in refl)

push_accounts_example :
    (calls : List Call) × (run_calls memory_store "u1" calls create_memory_store ≡ stored)
    × ((table id : String)
        → (not (
              member table (table_names memory_store options)
              && is_requested request.changes table id)
            || is_settled memory_store "u1" table id calls create_memory_store
            || member id (rejected_ids table answer.rejected))
          ≡ true)
push_accounts_example =
    push_accounts memory_store options "u1" request create_memory_store stored answer first_push

push_no_echo_example :
    reply_mentions (("todos", record { created = []; updated = []; deleted = [] }) ∷ []) "todos" "a"
    ≡ false
push_no_echo_example =
    push_no_echo memory_store options "u1" request create_memory_store stored answer
      (("todos", record { created = []; updated = []; deleted = [] }) ∷ []) "todos" "a"
      (λ t n. changed_since-IsFiled t "u1" n stored) first_push refl
      (unfold is_requested get member in refl)

abbrev old_cursor : SyncPullArgs
old_cursor = record { cursor = some "7"; schema_version = 1; migration = none }

abbrev first_pull : SyncPullArgs
first_pull = record { cursor = none; schema_version = 1; migration = none }

abbrev milk_changes : SyncChanges WireRow
milk_changes = ("todos", record { created = []; updated = milk_row ∷ []; deleted = [] }) ∷ []

pull_milk : pull memory_store options "u1" first_pull stored ≡ pulled milk_changes "1"
unfolding pull to_changes collect_since changed_since max_rev get member print_rev
pull_milk = refl

pull_resync_iff_example : (pull memory_store options "u1" old_cursor stored ≡ resync_required) ↔ (
    (cursor : String) × (old_cursor.cursor ≡ some cursor)
    × (¬ IsServed memory_store options "u1" stored cursor))
pull_resync_iff_example = pull_resync_iff memory_store options "u1" stored old_cursor

stored-IsStamped : IsStamped stored
stored-IsStamped = (((refl, omega arith, (unfold member in refl), tt), tt), tt)

push-IsStamped_example : IsStamped stored
push-IsStamped_example =
    push-IsStamped options "u1" request create_memory_store stored (pushed answer) first_push tt

push_isolated_example : row_at "u2" "todos" "a" stored ≡ row_at "u2" "todos" "a" create_memory_store
push_isolated_example =
    push_isolated options "u1" "u2" request create_memory_store stored (pushed answer)
      (ground (arith, eq_iff "u1" "u2")) first_push "todos" "a"

-- the store after a deletion of "a" at revision 3
abbrev dead_store : MemoryState
dead_store = record {
  scopes =
      ("u1", ("todos", ("a", record { row = milk_row; rev = 3; deleted = true }) ∷ []) ∷ []) ∷ [];
  rev = 3;
  floor = 0;
}

abbrev late_request : SyncPushArgs DirtyRaw
late_request = record request { cursor = "3" }

abbrev refusal : Pushed WireRow
refusal = record answer { cursor = some "3"; rejected = ("todos", "a" ∷ []) ∷ [] }

-- A write to a tombstone is rejected; only the counter moves, for the deletion batch.
late_push :
    push memory_store options "u1" late_request dead_store
    ≡ ok (pushed refusal, record dead_store { rev = 4 })
unfolding push parse parse_table each own scan validate_rows bury run_hooks screen upsert_all
    tombstone_all to_changes collect_since decode_cursor print_rev get set remove member unique
    changed_since max_rev current_revs tombstoned_ids foreign_ids upsert tombstone reject drop_ids
late_push = refl

push_no_resurrection_example :
    is_dead (row_at "u1" "todos" "a" (record dead_store { rev = 4 })) ≡ true
push_no_resurrection_example =
    push_no_resurrection options "u1" late_request dead_store (record dead_store { rev = 4 })
      (pushed refusal) "todos" "a" late_push (unfold get in refl)

pull_reports_example :
    reply_mentions milk_changes "todos" "a"
    ≡ member "todos" (table_names memory_store options)
      && is_newer 0 (row_at "u1" "todos" "a" stored)
pull_reports_example =
    pull_reports options "u1" first_pull stored 0 milk_changes "1" "todos" "a" stored-IsStamped refl
      pull_milk

pull_settles_example :
    (later : SyncChanges WireRow) × (pull memory_store options "u1"
        (record { cursor = some "1"; schema_version = 1; migration = none })
        stored
      ≡ pulled later "1")
    × ((table id : String) → reply_mentions later table id ≡ false)
pull_settles_example =
    pull_settles options "u1" first_pull stored 1 milk_changes "1" stored-IsStamped
      (unfold max_rev get in omega arith) pull_milk

upsert_lem_example :
    (row_at "u1" "todos" "a" (upsert "todos" "u1" (milk_row ∷ []) create_memory_store).0 ≡ (
      if "u1" == "u1" && "todos" == "todos"
      then revised 1 (last_stated "a" (milk_row ∷ [])) none
      else none))
    × ((upsert "todos" "u1" (milk_row ∷ []) create_memory_store).1 ≡ [])
    × ((upsert "todos" "u1" (milk_row ∷ []) create_memory_store).0.rev ≡ 1)
unfolding get
upsert_lem_example = upsert_lem "u1" "todos" create_memory_store (milk_row ∷ []) "u1" "todos" "a"

tombstone_lem_example :
    (row_at "u1" "todos" "a" (tombstone "todos" "u1" ("a" ∷ []) stored) ≡ (
      if "u1" == "u1" && "todos" == "todos" && member "a" ("a" ∷ [])
      then buried 3 (row_at "u1" "todos" "a" stored)
      else row_at "u1" "todos" "a" stored))
    × ((tombstone "todos" "u1" ("a" ∷ []) stored).rev ≡ 3)
tombstone_lem_example = tombstone_lem "u1" "todos" stored ("a" ∷ []) "u1" "todos" "a"
