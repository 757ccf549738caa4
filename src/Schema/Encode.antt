-- ===== src/Schema/Encode.antt =====
-- packages/core/src/schema/encodeSchema.ts: the statements that create and migrate tables.
pub mod Quoting
pub mod Names
pub mod Plain
use remelon_db.Prelude.{String, Bool, true, false, List, [], ◌∷◌, ◌++◌, map, filter, if◌then◌else◌}
use remelon_db.Prelude.Map.{values}
use remelon_db.Prelude.Text.{◌+++◌, join}
use remelon_db.Schema.Tables.{
  ColumnType, string_type, number_type, boolean_type, blob_type, ColumnSchema, TableSchema,
  AppSchema, is_blob,
}
use remelon_db.Schema.Migrations.{MigrationStep, create_table_step, add_columns_step, sql_step}

abbrev pub local_storage_schema : String
local_storage_schema = "create table \"local_storage\" (\"key\" primary key not null, \"value\")"

-- "name", between double quotes
abbrev pub quoted : String → String
quoted name = "\"" +++ (name +++ "\"")

unfoldable pub encode_index : String → String → String
encode_index table column =
    "create index if not exists "
    +++ (quoted (table +++ ("_" +++ column))
        +++ (" on " +++ (quoted table +++ (" (" +++ (quoted column +++ ")")))))

unfoldable pub encode_table_indices : TableSchema → List String
encode_table_indices t =
    map (λ c. encode_index t.name c.name) (filter (λ c. c.is_indexed) t.column_array)
    ++ (encode_index t.name "_status" ∷ [])

abbrev pub affinity : ColumnSchema → String
affinity c = if is_blob c.kind then " BLOB" else ""

abbrev pub column_sql : ColumnSchema → String
column_sql c = quoted c.name +++ affinity c

unfoldable pub encode_create_table : TableSchema → String
unfolding join
encode_create_table t =
    "create table "
    +++ (quoted t.name
        +++ (" ("
            +++ (join ", " (
                  "\"id\" primary key"
                  ∷ "\"_changed\""
                  ∷ "\"_status\""
                  ∷ map column_sql t.column_array)
                +++ ")")))

unfoldable pub encode_table : TableSchema → List String
unfolding encode_create_table encode_table_indices
encode_table t = encode_create_table t ∷ encode_table_indices t

-- .flatMap(f)
abbrev pub flat_map {ℓ} : {A : Type ℓ} → (A → List String) → List A → List String
flat_map f [] = []
flat_map f (x ∷ xs) = f x ++ flat_map f xs

unfoldable pub encode_schema : AppSchema → List String
unfolding encode_table
encode_schema s = local_storage_schema ∷ flat_map encode_table (values s.tables)

-- the literal that fills an added column in the rows that exist
unfoldable pub default_value_sql : ColumnSchema → String
default_value_sql c = if c.is_optional then "null" else elim c.kind [
  | string_type ↦ "''"
  | number_type ↦ "0"
  | boolean_type ↦ "0"
  | blob_type ↦ "X''"
]

unfoldable pub encode_add_column : String → ColumnSchema → List String
unfolding default_value_sql encode_index
encode_add_column table c =
    ("alter table "
      +++ (quoted table
          +++ (" add "
              +++ (quoted c.name +++ (affinity c +++ (" default " +++ default_value_sql c))))))
    ∷ (if c.is_indexed then encode_index table c.name ∷ [] else [])

abbrev pub encode_step : MigrationStep → List String
encode_step (create_table_step t) = encode_table t
encode_step (add_columns_step table columns) = flat_map (encode_add_column table) columns
encode_step (sql_step sql) = sql ∷ []

unfoldable pub encode_migration_steps : List MigrationStep → List String
unfolding encode_table encode_add_column
encode_migration_steps steps = flat_map encode_step steps
