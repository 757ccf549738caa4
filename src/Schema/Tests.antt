-- ===== src/Schema/Tests.antt =====
-- Runs of the schema operations at concrete tables and migrations.
use remelon_db.Prelude.{◌≡◌, refl, arith, true, false, some, List, [], ◌∷◌, ◌++◌, All, ◌↔◌, map}
use remelon_db.Prelude.Map.{get, set}
use remelon_db.Prelude.Set.{member}
use remelon_db.Prelude.Result.{ok, err}
use remelon_db.Wire.{whole}
use remelon_db.Schema.{duplicate_column, bad_to_version}
use remelon_db.Schema.Tables.{
  ColumnSchema, TableSchema, string_type, number_type, build_table_schema,
}
use remelon_db.Schema.Tables.Laws.{table_of, IsTable, build_table_schema_iff}
use remelon_db.Schema.Migrations.{
  SchemaMigrations, MigrationSpec, MigrationStep, sql_step, schema_migrations, steps_for_migration,
}
use remelon_db.Schema.Migrations.Laws.{
  IsContiguous, schema_migrations-IsContiguous, steps_for_migration_compose,
}
use remelon_db.Schema.Encode.{encode_table}
use remelon_db.Schema.Encode.Quoting.{quoted_names}
use remelon_db.Schema.Encode.Names.{names_of}
use remelon_db.Schema.Encode.Plain.{IsPlain, encode_table_lem}

abbrev title : ColumnSchema
title = record { name = "title"; kind = string_type; is_optional = false; is_indexed = true }

abbrev position : ColumnSchema
position = record { name = "position"; kind = number_type; is_optional = true; is_indexed = false }

abbrev pub columns : List ColumnSchema
columns = title ∷ position ∷ []

abbrev pub todos : TableSchema
todos = table_of "todos" columns false

pub built : build_table_schema "todos" columns false ≡ ok todos
unfolding build_table_schema get set member
built = refl

-- A column may not be called like a member of every object.
inherited_name :
    build_table_schema "todos" (record title { name = "constructor" } ∷ []) false
    ≡ err duplicate_column
unfolding build_table_schema get set member
inherited_name = refl

build_table_schema_iff_example :
    (build_table_schema "todos" columns false ≡ ok todos) ↔ IsTable "todos" columns false todos
build_table_schema_iff_example = build_table_schema_iff "todos" columns false todos

encode_table_lem_example :
    All IsPlain (encode_table todos)
    × (map quoted_names (encode_table todos) ≡ names_of "todos" columns)
encode_table_lem_example = encode_table_lem "todos" columns false todos built

abbrev specs : List MigrationSpec
specs =
    record { to_version = whole 4; steps = sql_step "a" ∷ [] }
    ∷ record { to_version = whole 5; steps = [] }
    ∷ record { to_version = whole 6; steps = sql_step "b" ∷ sql_step "c" ∷ [] }
    ∷ []

abbrev accepted : SchemaMigrations
accepted = record {
  migrations =
      record { to_version = 4; steps = sql_step "a" ∷ [] }
      ∷ record { to_version = 5; steps = [] }
      ∷ record { to_version = 6; steps = sql_step "b" ∷ sql_step "c" ∷ [] }
      ∷ [];
  min_version = 3;
  max_version = 6;
}

accepts : schema_migrations specs ≡ ok accepted
unfolding schema_migrations
accepts = refl

refuses : schema_migrations (record { to_version = whole 1; steps = [] } ∷ []) ≡ err bad_to_version
unfolding schema_migrations
refuses = refl

schema_migrations-IsContiguous_example : IsContiguous accepted
schema_migrations-IsContiguous_example = schema_migrations-IsContiguous specs accepted accepts

steps_for_migration_compose_example :
    (first : List MigrationStep) × (second : List MigrationStep) × (steps_for_migration accepted 3 5
      ≡ some first)
    × (steps_for_migration accepted 5 6 ≡ some second)
    × (steps_for_migration accepted 3 6 ≡ some (first ++ second))
steps_for_migration_compose_example =
    steps_for_migration_compose specs accepted 3 5 6 accepts (omega arith) (omega arith)
      (omega arith) (omega arith)
