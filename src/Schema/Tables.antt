-- ===== src/Schema/Tables.antt =====
-- packages/core/src/schema/index.ts: columns, tables and the application schema.
pub mod Laws
use remelon_db.Prelude.{
  ℕ, String, Bool, true, false, not, ◌&&◌, ◌||◌, Option, some, none, List, [], ◌∷◌, ◌==◌, map, leb,
  is_some, if◌then◌else◌,
}
use remelon_db.Prelude.Map.{Map, get, set, has, values}
use remelon_db.Prelude.Set.{member}
use remelon_db.Prelude.Result.{Result, ok, err, guard, ◌>>=◌, ◌>>◌}
use remelon_db.Prelude.Text.{starts_with}
use remelon_db.Wire.{JsNumber, whole, negative, fraction, non_finite}
use remelon_db.Schema.{
  SchemaError, reserved_column, blob_index, bad_timestamp, reserved_table, duplicate_column,
  bad_version, duplicate_table,
}
use remelon_db.Schema.Names.{ensure_name, is_reserved, inherited}

pub data ColumnType : Type 0 where
  string_type number_type boolean_type blob_type : ColumnType

pub record ColumnSchema : Type 0 where
  pub name : String
  pub kind : ColumnType
  pub is_optional : Bool
  pub is_indexed : Bool

abbrev pub is_blob : ColumnType → Bool
is_blob blob_type = true
is_blob string_type = false
is_blob number_type = false
is_blob boolean_type = false

abbrev pub is_number : ColumnType → Bool
is_number number_type = true
is_number string_type = false
is_number boolean_type = false
is_number blob_type = false

-- A column under construction: `ColumnDef` and `BlobColumnDef`.
pub record ColumnDef : Type 0 where
  pub kind : ColumnType
  pub is_optional : Bool
  pub is_indexed : Bool

-- `column.string()` and its siblings
abbrev pub column : ColumnType → ColumnDef
column kind = record { kind = kind; is_optional = false; is_indexed = false }

abbrev pub optional : ColumnDef → ColumnDef
optional def = record def { is_optional = true }

abbrev pub indexed : ColumnDef → ColumnDef
indexed def = record def { is_indexed = true }

pub record TableSchema : Type 0 where
  pub name : String
  pub columns : Map ColumnSchema
  pub column_array : List ColumnSchema
  pub local_only : Bool

pub record AppSchema : Type 0 where
  pub version : ℕ
  pub tables : Map TableSchema

-- created_at and updated_at are non-optional numbers
abbrev pub is_misused_timestamp : ColumnSchema → Bool
is_misused_timestamp c =
    (c.name == "created_at" || c.name == "updated_at") && (not (is_number c.kind) || c.is_optional)

-- The check that the type is one of the four always passes here.
unfoldable pub validate_column_schema : ColumnSchema → Result SchemaError (Unit {0})
unfolding ensure_name is_reserved
validate_column_schema c =
    ensure_name c.name
    >> (guard (not (is_reserved c.name)) reserved_column
        >> (guard (not (is_blob c.kind && c.is_indexed)) blob_index
            >> guard (not (is_misused_timestamp c)) bad_timestamp))

-- object[name] is truthy, for a plain object that holds objects
unfoldable pub is_taken {ℓ} : {V : Type ℓ} → String → Map V → Bool
is_taken name object = has name object || member name inherited

-- the loop of `buildTableSchema`
unfoldable pub add_columns_to :
    List ColumnSchema → Map ColumnSchema → Result SchemaError (Map ColumnSchema)
unfolding validate_column_schema is_taken
add_columns_to [] columns = ok columns
add_columns_to (c ∷ rest) columns =
    validate_column_schema c
    >> (guard (not (is_taken c.name columns)) duplicate_column
        >> add_columns_to rest (set c.name c columns))

abbrev pub is_reserved_table : String → Bool
is_reserved_table name = name == "local_storage" || starts_with name "sqlite_"

unfoldable pub build_table_schema :
    String → List ColumnSchema → Bool → Result SchemaError TableSchema
unfolding add_columns_to ensure_name starts_with
build_table_schema name column_array local_only =
    ensure_name name
    >> (guard (not (is_reserved_table name)) reserved_table
        >> (add_columns_to column_array [] >>= λ columns. ok (record {
          name = name;
          columns = columns;
          column_array = column_array;
          local_only = local_only;
        })))

abbrev pub columns_from_spec : Map ColumnDef → List ColumnSchema
columns_from_spec spec =
    map
      (λ e. record {
        name = e.0;
        kind = e.1.kind;
        is_optional = e.1.is_optional;
        is_indexed = e.1.is_indexed;
      })
      spec

-- `table(name, cols, options)`
unfoldable pub table : String → Map ColumnDef → Bool → Result SchemaError TableSchema
unfolding build_table_schema
table name cols local_only = build_table_schema name (columns_from_spec cols) local_only

-- Number.isInteger(x) && x >= least
abbrev pub integer_from : ℕ → JsNumber → Option ℕ
integer_from least (whole n) = if leb least n then some n else none
integer_from least (negative n) = none
integer_from least (fraction n) = none
integer_from least (non_finite n) = none

-- the loop of `appSchema`
unfoldable pub add_tables :
    List TableSchema → Map TableSchema → Result SchemaError (Map TableSchema)
unfolding is_taken
add_tables [] tables = ok tables
add_tables (t ∷ rest) tables =
    guard (not (is_taken t.name tables)) duplicate_table >> add_tables rest (set t.name t tables)

unfoldable pub app_schema : JsNumber → List TableSchema → Result SchemaError AppSchema
unfolding add_tables
app_schema version tables = elim (integer_from 1 version) [
  | none ↦ err bad_version
  | some v ↦ add_tables tables [] >>= λ by_name. ok (record { version = v; tables = by_name })
]
