-- ===== src/Schema.antt =====
-- packages/core/src/schema: the errors that definitions of tables and migrations throw.
pub mod Names
pub mod Tables
pub mod Migrations
pub mod Encode
pub mod Tests

-- The throw sites, in the order of the source.
pub data SchemaError : Type 0 where
  invalid_name reserved_column blob_index bad_timestamp : SchemaError
  reserved_table duplicate_column bad_version duplicate_table : SchemaError
  no_columns empty_sql no_migrations bad_to_version not_contiguous : SchemaError
