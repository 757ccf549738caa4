-- ===== src/Sync.antt =====
-- The sync client, packages/core/src/sync: what it throws, the operations it hands to the database
-- as one batch, and helpers.ts.
pub mod Resolve
pub mod Apply
pub mod Mark
pub mod Migration
pub mod Synchronize
pub mod Controller
pub mod Tests
use remelon_db.Prelude.{
  ℕ, String, Bool, true, false, not, ◌&&◌, ◌||◌, Option, some, none, List, [], ◌∷◌, ◌++◌, ◌==◌, map,
  all, eqb, length, is_empty, or_else, if◌then◌else◌,
}
use remelon_db.Prelude.Map.{Map, get, set, values}
use remelon_db.Prelude.Result.{Result, ok, err, ◌>>=◌}
use remelon_db.Wire.{
  JsValue, undefined, null, boolean, number, string, bytes, other, DirtyRaw, field, TableChanges,
  SyncChanges,
}
use remelon_db.Schema.Tables.{ColumnSchema, TableSchema, is_blob}
use remelon_db.RawRecord.{
  SqlValue, sql_null, sql_text, sql_number, sql_boolean, sql_bytes, SyncStatus, synced, created,
  updated, deleted, RawRecord, are_values_equal, changed_names,
}

pub data SyncError : Type 0 where
  no_string_id invalid_blob sparse_record local_only_table unsafe_value : SyncError

-- `BatchOperation`, without the table's name
pub data Operation : Type 0 where
  create update destroy : RawRecord → Operation

abbrev pub operation_id : Operation → String
operation_id (create raw) = raw.id
operation_id (update raw) = raw.id
operation_id (destroy raw) = raw.id

abbrev pub same_status : SyncStatus → SyncStatus → Bool
same_status synced synced = true
same_status created created = true
same_status updated updated = true
same_status deleted deleted = true
same_status a b = false

-- `raw[column] ?? null`, for the columns of the table
abbrev pub value_at : String → RawRecord → SqlValue
value_at column raw = or_else (get column raw.columns) sql_null

-- the same number of keys, and equal values under the keys of the first
unfoldable pub are_records_equal : RawRecord → RawRecord → Bool
are_records_equal a b =
    a.id == b.id
    && (same_status a.status b.status
        && (a.changed == b.changed
            && (eqb (length a.columns) (length b.columns)
                && all (λ e. are_values_equal e.1 (value_at e.0 b)) a.columns)))

unfoldable pub is_changes_empty : SyncChanges DirtyRaw → Bool
is_changes_empty changes =
    all (λ t. is_empty t.created && is_empty t.updated && is_empty t.deleted) (values changes)

-- `encodeBase64` and `decodeBase64` stand on the platform's `btoa` and `atob`.
module _ (encode_base64 : List ℕ → String) where
  abbrev pub wire_value : ColumnSchema → SqlValue → JsValue
  wire_value c sql_null = null
  wire_value c (sql_text s) = string s
  wire_value c (sql_number n) = number n
  wire_value c (sql_boolean b) = boolean b
  wire_value c (sql_bytes bs) = if is_blob c.kind then string (encode_base64 bs) else bytes bs

  abbrev strip_columns : RawRecord → List ColumnSchema → DirtyRaw → DirtyRaw
  strip_columns raw [] wire = wire
  strip_columns raw (c ∷ cs) wire =
      strip_columns raw cs (set c.name (wire_value c (value_at c.name raw)) wire)

  -- `stripInternal`: the columns of the table and the id
  unfoldable pub strip_internal : RawRecord → TableSchema → DirtyRaw
  strip_internal raw t = strip_columns raw t.column_array (("id", string raw.id) ∷ [])

module _ (decode_base64 : String → Result SyncError (List ℕ)) where
  -- one blob column of `decodeWireRaw`
  abbrev decode_value : JsValue → Result SyncError JsValue
  decode_value (string s) = decode_base64 s >>= λ bs. ok (bytes bs)
  decode_value undefined = ok undefined
  decode_value null = ok null
  decode_value (bytes bs) = ok (bytes bs)
  decode_value value = err invalid_blob

  -- a value that is not a text is left as it is
  abbrev put_decoded : String → JsValue → JsValue → DirtyRaw → DirtyRaw
  put_decoded name (string s) decoded dirty = set name decoded dirty
  put_decoded name value decoded dirty = dirty

  unfoldable pub decode_columns :
      List ColumnSchema → DirtyRaw → DirtyRaw → Result SyncError DirtyRaw
  decode_columns [] dirty decoded = ok decoded
  decode_columns (c ∷ cs) dirty decoded =
      if is_blob c.kind
      then (let value = field c.name dirty in
          decode_value value >>= λ v. decode_columns cs dirty (put_decoded c.name value v decoded))
      else decode_columns cs dirty decoded

  unfoldable pub decode_wire_raw : DirtyRaw → TableSchema → Result SyncError DirtyRaw
  unfolding decode_columns
  decode_wire_raw dirty t = decode_columns t.column_array dirty dirty
