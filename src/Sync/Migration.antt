-- ===== src/Sync/Migration.antt =====
-- synchronize.ts, `migrationInfo`: the tables and columns that a pull after a migration asks for.
use remelon_db.Prelude.{
  ℕ, String, Bool, true, false, not, ◌&&◌, Option, none, some, List, [], ◌∷◌, ◌++◌, leb, or_else,
  is_empty, if◌then◌else◌,
}
use remelon_db.Prelude.Map.{Map, get, set}
use remelon_db.Prelude.Set.{member}
use remelon_db.Prelude.Result.{Result, ok, err}
use remelon_db.Wire.{MigrationSyncChanges}
use remelon_db.Schema.Tables.{AppSchema, ColumnSchema}
use remelon_db.Schema.Migrations.{
  MigrationStep, create_table_step, add_columns_step, sql_step, SchemaMigrations,
  steps_for_migration,
}

pub data MigrationError : Type 0 where
  no_migrations no_migration_path : MigrationError

pub record MigrationInfo : Type 0 where
  pub migration : Option MigrationSyncChanges
  pub should_save_version : Bool

unfoldable pub is_local_only : AppSchema → String → Bool
unfolding get
is_local_only schema table = elim (get table schema.tables) [ none ↦ false | some t ↦ t.local_only ]

-- the set with the names of the columns added
unfoldable pub add_names : List ColumnSchema → List String → List String
unfolding member
add_names [] names = names
add_names (c ∷ columns) names =
    add_names columns (if member c.name names then names else names ++ (c.name ∷ []))

-- one step: `tables` and `columnsByTable` after it
unfoldable pub add_step :
    AppSchema → MigrationStep → List String × Map (List String) → List String × Map (List String)
unfolding is_local_only add_names member get set
add_step schema (create_table_step t) (tables, columns) =
    if is_local_only schema t.name then (tables, columns) else (tables ++ (t.name ∷ []), columns)
add_step schema (add_columns_step table added) (tables, columns) =
    if not (member table tables) && not (is_local_only schema table)
    then (tables, set table (add_names added (or_else (get table columns) [])) columns)
    else (tables, columns)
add_step schema (sql_step sql) found = found

unfoldable pub add_steps :
    AppSchema
    → List MigrationStep
    → List String × Map (List String)
    → List String × Map (List String)
unfolding add_step
add_steps schema [] found = found
add_steps schema (s ∷ steps) found = add_steps schema steps (add_step schema s found)

-- the result for the steps of a path from a version
abbrev pub info_of_steps : AppSchema → ℕ → List MigrationStep → MigrationInfo
unfolding add_steps
info_of_steps schema from steps =
    let (tables, columns) = add_steps schema steps ([], []) in
    if is_empty tables && is_empty columns
    then record { migration = none; should_save_version = true }
    else record {
      migration = some (record { from = from; tables = tables; columns = columns });
      should_save_version = true;
    }

-- a path between two versions, when the application has migrations
unfoldable pub migrate_from :
    AppSchema → Option SchemaMigrations → ℕ → Result MigrationError MigrationInfo
unfolding add_steps steps_for_migration
migrate_from schema migrations from = elim migrations [
  | none ↦ err no_migrations
  | some ms ↦ elim (steps_for_migration ms from schema.version) [
    | none ↦ err no_migration_path
    | some steps ↦ ok (info_of_steps schema from steps)
  ]
]

abbrev pub nothing_to_migrate : Bool → MigrationInfo
nothing_to_migrate save = record { migration = none; should_save_version = save }

-- `stored` is the version that the last sync saved, as a number
unfoldable pub migration_info :
    AppSchema
    → Option SchemaMigrations
    → Option ℕ
    → Option ℕ
    → Bool
    → Result MigrationError MigrationInfo
unfolding migrate_from
migration_info schema migrations stored none true = ok (nothing_to_migrate true)
migration_info schema migrations stored none false = ok (nothing_to_migrate false)
migration_info schema migrations stored (some enabled_at) true = ok (nothing_to_migrate true)
migration_info schema migrations stored (some enabled_at) false =
    let from = or_else stored enabled_at in
    if leb schema.version from
    then ok (nothing_to_migrate false)
    else migrate_from schema migrations from
