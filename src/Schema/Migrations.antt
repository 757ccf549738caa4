-- ===== src/Schema/Migrations.antt =====
-- packages/core/src/schema/migrations.ts
pub mod Laws
use Prim.Native.Char.{code}
use Prim.Native.String
use remelon_db.Prelude.{
  ℕ, String, Bool, true, false, not, ◌&&◌, ◌||◌, Option, some, none, List, [], ◌∷◌, ◌++◌, ◌+◌, ◌-◌,
  ltb, leb, eqb, is_empty, filter, any, if◌then◌else◌, map,
}
use remelon_db.Prelude.Map.{Map}
use remelon_db.Prelude.Result.{Result, ok, err, guard, ◌>>=◌, ◌>>◌, traverse}
use remelon_db.Prelude.Text.{all_codes}
use remelon_db.Wire.{JsNumber}
use remelon_db.Schema.{
  SchemaError, no_columns, empty_sql, no_migrations, bad_to_version, not_contiguous,
}
use remelon_db.Schema.Names.{ensure_name}
use remelon_db.Schema.Tables.{
  ColumnSchema, ColumnDef, TableSchema, validate_column_schema, build_table_schema,
  columns_from_spec, integer_from,
}

pub data MigrationStep : Type 0 where
  create_table_step : TableSchema → MigrationStep
  add_columns_step : String → List ColumnSchema → MigrationStep
  sql_step : String → MigrationStep

-- A `Migration` as an application writes it, its version any number.
pub record MigrationSpec : Type 0 where
  pub to_version : JsNumber
  pub steps : List MigrationStep

-- A `Migration` that passed the checks.
pub record Migration : Type 0 where
  pub to_version : ℕ
  pub steps : List MigrationStep

pub record SchemaMigrations : Type 0 where
  pub migrations : List Migration
  pub min_version : ℕ
  pub max_version : ℕ

unfoldable pub create_table : String → Map ColumnDef → Result SchemaError MigrationStep
unfolding build_table_schema
create_table name columns =
    build_table_schema name (columns_from_spec columns) false >>= λ t. ok (create_table_step t)

unfoldable pub add_columns : String → Map ColumnDef → Result SchemaError MigrationStep
unfolding ensure_name traverse validate_column_schema
add_columns name spec =
    let columns = columns_from_spec spec in
    ensure_name name
    >> (guard (not (is_empty columns)) no_columns
        >> (traverse validate_column_schema columns >>= λ _. ok (add_columns_step name columns)))

-- the white space and line ends that `trim` drops
abbrev is_space : ℕ → Bool
is_space n =
    (leb 9 n && leb n 13)
    || (leb 8192 n && leb n 8202)
    || any (eqb n) (32 ∷ 160 ∷ 5760 ∷ 8232 ∷ 8233 ∷ 8239 ∷ 8287 ∷ 12288 ∷ 65279 ∷ [])

unfoldable pub unsafe_execute_sql : String → Result SchemaError MigrationStep
unfolding all_codes
unsafe_execute_sql sql = guard (not (all_codes is_space sql)) empty_sql >> ok (sql_step sql)

-- migration.toVersion === previous.toVersion + 1, where there is a previous one
abbrev pub follows : Option ℕ → ℕ → Bool
follows none v = true
follows (some u) v = eqb v (u + 1)

-- the loop of `schemaMigrations`
unfoldable pub check_migrations :
    Option ℕ → List MigrationSpec → Result SchemaError (List Migration)
check_migrations previous [] = ok []
check_migrations previous (m ∷ rest) = elim (integer_from 2 m.to_version) [
  | none ↦ err bad_to_version
  | some v ↦
      guard (follows previous v) not_contiguous
      >> (check_migrations (some v) rest >>= λ ms.
          ok (record { to_version = v; steps = m.steps } ∷ ms))
]

abbrev pub last_version : Migration → List Migration → ℕ
last_version m [] = m.to_version
last_version m (n ∷ rest) = last_version n rest

-- minVersion and maxVersion, from the first and the last migration
abbrev pub bounded : List Migration → Result SchemaError SchemaMigrations
bounded [] = err no_migrations
bounded (m ∷ rest) = ok (record {
  migrations = m ∷ rest;
  min_version = m.to_version - 1;
  max_version = last_version m rest;
})

unfoldable pub schema_migrations : List MigrationSpec → Result SchemaError SchemaMigrations
unfolding check_migrations
schema_migrations specs = check_migrations none specs >>= bounded

-- .flatMap((m) => m.steps)
unfoldable pub all_steps : List Migration → List MigrationStep
all_steps [] = []
all_steps (m ∷ rest) = m.steps ++ all_steps rest

unfoldable pub steps_for_migration : SchemaMigrations → ℕ → ℕ → Option (List MigrationStep)
unfolding all_steps
steps_for_migration ms from to =
    if leb to from || ltb from ms.min_version || ltb ms.max_version to
    then none
    else some (all_steps (filter (λ m. ltb from m.to_version && leb m.to_version to) ms.migrations))
