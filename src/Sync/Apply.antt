-- ===== src/Sync/Apply.antt =====
-- applyRemote.ts: the operations that a pulled change set leads to. What the database's queries
-- return is a parameter; rows of one table have distinct ids, since the id is its primary key.
pub mod Rows
pub mod Disjoint
use remelon_db.Prelude.{
  ℕ, String, Bool, true, false, not, ◌&&◌, ◌||◌, Option, some, none, List, [], ◌∷◌, ◌++◌, ◌==◌, map,
  all, is_empty, filter, if◌then◌else◌,
}
use remelon_db.Prelude.Map.{Map, get, set, has, keys}
use remelon_db.Prelude.Set.{member, unique}
use remelon_db.Prelude.Result.{Result, ok, err, guard, traverse, ◌>>=◌, ◌>>◌}
use remelon_db.Wire.{JsValue, string, DirtyRaw, field, TableChanges, SyncChanges}
use remelon_db.Schema.Tables.{TableSchema, AppSchema}
use remelon_db.RawRecord.{
  SyncStatus, synced, created, updated, deleted, RawRecord, sanitized_raw, is_deleted,
}
use remelon_db.Sync.{
  SyncError, no_string_id, sparse_record, local_only_table, Operation, create, update, destroy,
  are_records_equal, decode_wire_raw,
}
use remelon_db.Sync.Resolve.{lift, resolve_conflict}

pub record ApplyOptions : Type 0 where
  pub conflict_resolver : Option (String → RawRecord → DirtyRaw → RawRecord → RawRecord)
  pub replacement : Bool

unfoldable pub remote_id : DirtyRaw → Result SyncError String
remote_id dirty = elim (field "id" dirty) [
  | string id ↦ if id == "" then err no_string_id else ok id
  | _ ↦ err no_string_id
]

-- `new Map(rows.map((row) => [remoteId(row), row]))`
unfoldable pub last_by_id : List DirtyRaw → Map DirtyRaw → Result SyncError (Map DirtyRaw)
unfolding remote_id
last_by_id [] by_id = ok by_id
last_by_id (row ∷ rows) by_id = remote_id row >>= λ id. last_by_id rows (set id row by_id)

-- the fields that `createAsSynced` states
abbrev pub as_synced : DirtyRaw → DirtyRaw
as_synced dirty = set "_changed" (string "") (set "_status" (string "synced") dirty)

unfoldable pub create_as_synced : String → TableSchema → DirtyRaw → Result SyncError Operation
unfolding sanitized_raw
create_as_synced fresh t dirty = lift (sanitized_raw fresh (as_synced dirty) t) >>= λ raw.
    ok (create (record raw { status = synced; changed = "" }))

unfoldable pub require_full_record : TableSchema → DirtyRaw → Result SyncError (Unit {0})
require_full_record t dirty = guard (all (λ c. has c.name dirty) t.column_array) sparse_record

abbrev pub is_absorbing : SyncStatus → Bool
is_absorbing synced = true
is_absorbing created = true
is_absorbing updated = false
is_absorbing deleted = false

-- options.conflictResolver, if there is one
abbrev pub customized : ApplyOptions → String → RawRecord → DirtyRaw → RawRecord → RawRecord
customized options table local remote resolved = elim options.conflict_resolver [
  | none ↦ resolved
  | some resolver ↦ resolver table local remote resolved
]

unfoldable pub update_resolved :
    ApplyOptions
    → String
    → String
    → TableSchema
    → RawRecord
    → DirtyRaw
    → Result SyncError (List Operation)
unfolding resolve_conflict are_records_equal
update_resolved options fresh table t local dirty = resolve_conflict fresh local dirty t >>= λ base.
    let resolved = customized options table local dirty base in
    ok (
      if is_absorbing local.status && are_records_equal local resolved
      then []
      else update resolved ∷ [])

-- One created or updated row; the two loops differ only in what they log.
unfoldable pub apply_row :
    ApplyOptions
    → String
    → String
    → TableSchema
    → Map RawRecord
    → String
    → DirtyRaw
    → Result SyncError (List Operation)
unfolding create_as_synced require_full_record update_resolved
apply_row options fresh table t local id dirty =
    require_full_record t dirty >> elim (get id local) [
      | none ↦ create_as_synced fresh t dirty >>= λ o. ok (o ∷ [])
      | some raw ↦
          if is_deleted raw.status then ok [] else update_resolved options fresh table t raw dirty
    ]

unfoldable pub apply_rows :
    ApplyOptions
    → String
    → String
    → TableSchema
    → Map RawRecord
    → Map DirtyRaw
    → Result SyncError (List Operation)
unfolding apply_row
apply_rows options fresh table t local [] = ok []
apply_rows options fresh table t local ((id, dirty) ∷ rows) =
    apply_row options fresh table t local id dirty >>= λ first.
    apply_rows options fresh table t local rows >>= λ rest. ok (first ++ rest)

-- the raw of a destroyed record
abbrev pub tombstone_of : String → RawRecord
tombstone_of id = record { id = id; status = deleted; changed = ""; columns = [] }

unfoldable pub apply_deleted : Map RawRecord → List String → List Operation
apply_deleted local [] = []
apply_deleted local (id ∷ ids) =
    if has id local
    then destroy (tombstone_of id) ∷ apply_deleted local ids
    else apply_deleted local ids

abbrev pub is_synced : SyncStatus → Bool
is_synced synced = true
is_synced created = false
is_synced updated = false
is_synced deleted = false

-- a replacement destroys the synced records that the snapshot leaves out
unfoldable pub apply_replacement : List String → Map RawRecord → List Operation
apply_replacement snapshot [] = []
apply_replacement snapshot ((id, raw) ∷ local) =
    let rest = apply_replacement snapshot local in
    if not (member id snapshot) && is_synced raw.status then destroy raw ∷ rest else rest

-- the rows of a query, by id
unfoldable pub by_id : List RawRecord → Map RawRecord → Map RawRecord
by_id [] local = local
by_id (raw ∷ rows) local = by_id rows (set raw.id raw local)

-- A table's changes after normalization: deleted supersedes updated supersedes created.
pub record Normal : Type 0 where
  pub created : Map DirtyRaw
  pub updated : Map DirtyRaw
  pub deleted : List String

module _ (decode_base64 : String → Result SyncError (List ℕ)) where
  unfoldable pub decode_rows : TableSchema → List DirtyRaw → Result SyncError (Map DirtyRaw)
  unfolding decode_wire_raw last_by_id traverse
  decode_rows t rows = traverse (λ row. decode_wire_raw decode_base64 row t) rows >>= λ decoded.
      last_by_id decoded []

  unfoldable pub normalize : TableSchema → TableChanges DirtyRaw → Result SyncError Normal
  unfolding decode_rows
  normalize t changes =
      let deleted_ids = unique changes.deleted in
      decode_rows t changes.updated >>= λ all_updated.
      let updated = filter (λ e. not (member e.0 deleted_ids)) all_updated in
      decode_rows t changes.created >>= λ all_created. ok (record {
        created = filter (λ e. not (member e.0 deleted_ids) && not (has e.0 updated)) all_created;
        updated = updated;
        deleted = deleted_ids;
      })

-- the operations for a table, from its normal changes and the local rows
unfoldable pub apply_normal :
    ApplyOptions
    → String
    → String
    → TableSchema
    → Map RawRecord
    → Normal
    → Result SyncError (List Operation)
unfolding apply_rows apply_deleted apply_replacement
apply_normal options fresh table t local normal =
    apply_rows options fresh table t local normal.created >>= λ first.
    apply_rows options fresh table t local normal.updated >>= λ second.
    let snapshot = keys normal.created ++ (keys normal.updated ++ normal.deleted) in
    ok (
      first
      ++ (second
          ++ (apply_deleted local normal.deleted
              ++ (if options.replacement then apply_replacement snapshot local else []))))

-- `query table (some ids)` is `queryRowsByIds`, and `query table none` reads the whole table.
module _ (decode_base64 : String → Result SyncError (List ℕ))
    (query : String → Option (List String) → List RawRecord) where
  -- nothing is read when nothing is referenced
  abbrev pub read_local : ApplyOptions → String → Normal → Map RawRecord
  read_local options table normal =
      let referenced = keys normal.created ++ (keys normal.updated ++ normal.deleted) in
      if options.replacement
      then by_id (query table none) []
      else if is_empty referenced
      then []
      else by_id (query table (some referenced)) []

  unfoldable pub apply_table :
      ApplyOptions
      → String
      → String
      → TableSchema
      → TableChanges DirtyRaw
      → Result SyncError (List Operation)
  unfolding normalize apply_normal by_id
  apply_table options fresh table t changes =
      guard (not t.local_only) local_only_table
      >> (normalize decode_base64 t changes >>= λ normal.
          apply_normal options fresh table t (read_local options table normal) normal)

  -- Tables that the schema does not have are ignored.
  unfoldable pub apply_remote_changes :
      ApplyOptions
      → String
      → AppSchema
      → SyncChanges DirtyRaw
      → Result SyncError (List (String × List Operation))
  unfolding apply_table
  apply_remote_changes options fresh schema [] = ok []
  apply_remote_changes options fresh schema ((table, changes) ∷ rest) =
      elim (get table schema.tables) [
        | none ↦ apply_remote_changes options fresh schema rest
        | some t ↦ apply_table options fresh table t changes >>= λ operations.
            apply_remote_changes options fresh schema rest >>= λ later.
            ok ((table, operations) ∷ later)
      ]
