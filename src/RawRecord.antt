-- ===== src/RawRecord.antt =====
-- packages/core/src/rawRecord/index.ts: values, records and the trust boundary that makes them.
pub mod Values
pub mod Marks
pub mod Tests
use Prim.Native.Char.{Char, code}
use remelon_db.Prelude.{
  ℕ, String, Bool, true, false, not, ◌&&◌, ◌||◌, Option, some, none, List, [], ◌∷◌, ◌++◌, ◌==◌, leb,
  eqb, ◌+◌, if◌then◌else◌,
}
use remelon_db.Prelude.Map.{Map, get, set}
use remelon_db.Prelude.Set.{member}
use remelon_db.Prelude.Result.{Result, ok, err, ◌>>=◌}
use remelon_db.Prelude.Text.{join}
use remelon_db.Prelude.Split.{split}
use remelon_db.Wire.{
  JsNumber, whole, negative, fraction, non_finite, JsValue, undefined, null, boolean, number,
  string, bytes, other, DirtyRaw, field,
}
use remelon_db.Server.Cursor.{max_safe_integer}
use remelon_db.Schema.Tables.{
  ColumnType, string_type, number_type, boolean_type, blob_type, ColumnSchema, TableSchema,
}

-- `SqlValue`
pub data SqlValue : Type 0 where
  sql_null : SqlValue
  sql_text : String → SqlValue
  sql_number : JsNumber → SqlValue
  sql_boolean : Bool → SqlValue
  sql_bytes : List ℕ → SqlValue

pub data SyncStatus : Type 0 where
  synced created updated deleted : SyncStatus

-- The fields every record has, and the columns of its table.
pub record RawRecord : Type 0 where
  pub id : String
  pub status : SyncStatus
  pub changed : String
  pub columns : Map SqlValue

-- thrown for an integer outside the safe range
pub data RawError : Type 0 where
  unsafe_integer : RawError

-- a === b on numbers: NaN equals nothing
abbrev pub same_number : JsNumber → JsNumber → Bool
same_number (whole a) (whole b) = eqb a b
same_number (negative a) (negative b) = eqb a b
same_number (fraction a) (fraction b) = eqb a b
same_number (non_finite a) (non_finite b) = eqb a b && not (eqb a 0)
same_number a b = false

abbrev pub same_bytes : List ℕ → List ℕ → Bool
same_bytes [] [] = true
same_bytes (a ∷ xs) (b ∷ ys) = eqb a b && same_bytes xs ys
same_bytes xs ys = false

abbrev pub same_boolean : Bool → Bool → Bool
same_boolean true b = b
same_boolean false b = not b

unfoldable pub are_values_equal : SqlValue → SqlValue → Bool
are_values_equal sql_null sql_null = true
are_values_equal (sql_text a) (sql_text b) = a == b
are_values_equal (sql_number a) (sql_number b) = same_number a b
are_values_equal (sql_boolean a) (sql_boolean b) = same_boolean a b
are_values_equal (sql_bytes a) (sql_bytes b) = same_bytes a b
are_values_equal a b = false

unfoldable pub null_value : ColumnSchema → SqlValue
null_value c = if c.is_optional then sql_null else elim c.kind [
  | string_type ↦ sql_text ""
  | number_type ↦ sql_number (whole 0)
  | boolean_type ↦ sql_boolean false
  | blob_type ↦ sql_bytes []
]

-- The `number` case: finite numbers pass, unless they are integers that are not safe.
abbrev pub sanitize_number : SqlValue → JsNumber → Result RawError SqlValue
sanitize_number absent (whole n) =
    if leb n max_safe_integer then ok (sql_number (whole n)) else err unsafe_integer
sanitize_number absent (negative n) =
    if leb (n + 1) max_safe_integer then ok (sql_number (negative n)) else err unsafe_integer
sanitize_number absent (fraction n) = ok (sql_number (fraction n))
sanitize_number absent (non_finite n) = ok absent

-- value === 1 is true, value === 0 is false
abbrev pub boolean_of_number : SqlValue → JsNumber → SqlValue
boolean_of_number absent (whole n) =
    if eqb n 1 then sql_boolean true else if eqb n 0 then sql_boolean false else absent
boolean_of_number absent n = absent

abbrev pub sanitize_typed : ColumnType → SqlValue → JsValue → Result RawError SqlValue
sanitize_typed string_type absent (string s) = ok (sql_text s)
sanitize_typed number_type absent (number n) = sanitize_number absent n
sanitize_typed boolean_type absent (boolean b) = ok (sql_boolean b)
sanitize_typed boolean_type absent (number n) = ok (boolean_of_number absent n)
sanitize_typed blob_type absent (bytes bs) = ok (sql_bytes bs)
sanitize_typed kind absent value = ok absent

unfoldable pub sanitize_value : JsValue → ColumnSchema → Result RawError SqlValue
unfolding null_value
sanitize_value value c = sanitize_typed c.kind (null_value c) value

-- isSyncStatus(status) ? status : 'created'
abbrev pub status_of : JsValue → SyncStatus
status_of (string s) =
    if s == "synced"
    then synced
    else if s == "updated"
    then updated
    else if s == "deleted"
    then deleted
    else created
status_of value = created

-- the text of the field, if it has one
abbrev pub text_or : String → JsValue → String
text_or absent (string s) = s
text_or absent value = absent

-- an id that is absent or empty is replaced by a fresh one
abbrev pub id_or : String → JsValue → String
id_or fresh (string s) = if s == "" then fresh else s
id_or fresh value = fresh

-- the loop over the columns
unfoldable pub sanitize_columns :
    DirtyRaw → List ColumnSchema → Map SqlValue → Result RawError (Map SqlValue)
unfolding sanitize_value
sanitize_columns dirty [] raw = ok raw
sanitize_columns dirty (c ∷ cs) raw =
    sanitize_value (field c.name dirty) c >>= λ v. sanitize_columns dirty cs (set c.name v raw)

-- `fresh` is what `randomId` returned.
unfoldable pub sanitized_raw : String → DirtyRaw → TableSchema → Result RawError RawRecord
unfolding sanitize_columns
sanitized_raw fresh dirty t = sanitize_columns dirty t.column_array [] >>= λ columns. ok (record {
  id = id_or fresh (field "id" dirty);
  status = status_of (field "_status" dirty);
  changed = text_or "" (field "_changed" dirty);
  columns = columns;
})

unfoldable pub set_raw_sanitized : RawRecord → JsValue → ColumnSchema → Result RawError RawRecord
unfolding sanitize_value
set_raw_sanitized raw value c =
    sanitize_value value c >>= λ v. ok (record raw { columns = set c.name v raw.columns })

-- the separator of `_changed`
abbrev pub comma : Char
comma = ","

-- _changed === '' ? [] : _changed.split(',')
unfoldable pub changed_names : String → List String
unfolding split
changed_names changed = if changed == "" then [] else split (code comma) changed

abbrev pub dirty_status : SyncStatus → SyncStatus
dirty_status created = created
dirty_status synced = updated
dirty_status updated = updated
dirty_status deleted = deleted

abbrev pub is_deleted : SyncStatus → Bool
is_deleted deleted = true
is_deleted synced = false
is_deleted created = false
is_deleted updated = false

unfoldable pub mark_as_changed : String → RawRecord → RawRecord
unfolding changed_names join
mark_as_changed column raw =
    if is_deleted raw.status
    then raw
    else let names = changed_names raw.changed in
      record raw {
        status = dirty_status raw.status;
        changed = if member column names then raw.changed else join "," (names ++ (column ∷ []));
      }
