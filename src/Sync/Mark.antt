-- ===== src/Sync/Mark.antt =====
-- fetchLocal.ts and markAsSynced.ts: the snapshot that is pushed, and what becomes of the records
-- after the push. What the database's queries return is a parameter.
pub mod Gates
use remelon_db.Prelude.{
  ℕ, String, Bool, not, ◌&&◌, List, [], ◌∷◌, ◌++◌, map, filter, is_empty, or_else, if◌then◌else◌,
}
use remelon_db.Prelude.Map.{Map, get}
use remelon_db.Prelude.Set.{member}
use remelon_db.Wire.{DirtyRaw, TableChanges, SyncChanges}
use remelon_db.Schema.Tables.{TableSchema, AppSchema}
use remelon_db.RawRecord.{synced, RawRecord, is_deleted}
use remelon_db.Sync.{
  Operation, update, destroy, are_records_equal, is_changes_empty, strip_internal,
}
use remelon_db.Sync.Apply.{tombstone_of}

-- The record as it is after the push, and the copy taken at the time of the snapshot.
pub record DirtyRecordSnapshot : Type 0 where
  pub current : RawRecord
  pub frozen : RawRecord

pub record LocalChanges : Type 0 where
  pub changes : SyncChanges DirtyRaw
  pub dirty_records : Map (List RawRecord)
  pub is_empty : Bool

-- the rows of a table by status, as the queries of the snapshot return them
pub record DirtyRows : Type 0 where
  pub created : List RawRecord
  pub updated : List RawRecord
  pub tombstones : List String

module _ (encode_base64 : List ℕ → String) (rows : String → DirtyRows) where
  abbrev pub changes_of : String × TableSchema → TableChanges DirtyRaw
  changes_of (table, t) = record {
    created = map (λ raw. strip_internal encode_base64 raw t) (rows table).created;
    updated = map (λ raw. strip_internal encode_base64 raw t) (rows table).updated;
    deleted = (rows table).tombstones;
  }

  -- the tables that take part in sync
  abbrev pub synced_tables : AppSchema → Map TableSchema
  synced_tables schema = filter (λ e. not e.1.local_only) schema.tables

  unfoldable pub fetch_local_changes : AppSchema → LocalChanges
  unfolding is_changes_empty strip_internal
  fetch_local_changes schema =
      let changes = map (λ e. (e.0, changes_of e)) (synced_tables schema) in
      record {
        changes = changes;
        dirty_records =
            map (λ e. (e.0, (rows e.0).created ++ (rows e.0).updated)) (synced_tables schema);
        is_empty = is_changes_empty changes;
      }

  unfoldable pub has_unsynced_changes : AppSchema → Bool
  unfolding fetch_local_changes
  has_unsynced_changes schema = not (fetch_local_changes schema).is_empty

-- `{ ...record, _status: 'synced', _changed: '' }`
abbrev pub as_synced_record : RawRecord → RawRecord
as_synced_record raw = record raw { status = synced; changed = "" }

-- the loop over the dirty records of a table
unfoldable pub mark_records : List String → List DirtyRecordSnapshot → List Operation
unfolding are_records_equal
mark_records rejected [] = []
mark_records rejected (s ∷ snapshots) =
    let rest = mark_records rejected snapshots in
    if not (member s.current.id rejected) && are_records_equal s.current s.frozen
    then update (as_synced_record s.current) ∷ rest
    else rest

-- `stillTombstoned`, from the rows that the lookup returned
abbrev pub still_tombstoned : List RawRecord → List String
still_tombstoned rows = map (λ r. r.id) (filter (λ r. is_deleted r.status) rows)

-- the loop over the pushed tombstones of a table
unfoldable pub mark_deleted : List String → List String → List Operation
mark_deleted tombstoned [] = []
mark_deleted tombstoned (id ∷ ids) =
    if member id tombstoned
    then destroy (tombstone_of id) ∷ mark_deleted tombstoned ids
    else mark_deleted tombstoned ids

-- `lookup table ids` is `queryRowsByIds`.
module _ (lookup : String → List String → List RawRecord) where
  abbrev pub mark_table_deleted :
      Map (List String) → String × TableChanges DirtyRaw → List Operation
  mark_table_deleted rejected (table, changes) =
      let rejected_ids = or_else (get table rejected) [] in
      let pushed_ids = filter (λ id. not (member id rejected_ids)) changes.deleted in
      if is_empty pushed_ids
      then []
      else mark_deleted (still_tombstoned (lookup table pushed_ids)) pushed_ids

  -- the operations of the one batch, table by table
  unfoldable pub mark_local_changes_as_synced :
      SyncChanges DirtyRaw
      → Map (List DirtyRecordSnapshot)
      → Map (List String)
      → List (String × List Operation)
  unfolding mark_records mark_deleted
  mark_local_changes_as_synced changes snapshots rejected =
      map (λ e. (e.0, mark_records (or_else (get e.0 rejected) []) e.1)) snapshots
      ++ map (λ e. (e.0, mark_table_deleted rejected e)) changes
