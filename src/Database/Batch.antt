-- ===== src/Database/Batch.antt =====
-- encodeBatch.ts: the operations of a batch as prepared statements with their arguments.
pub mod Order
pub mod Marks
use remelon_db.Prelude.{
  String, Bool, true, false, Option, none, some, List, [], ◌∷◌, ◌++◌, ◌==◌, map, if◌then◌else◌,
}
use remelon_db.Prelude.Map.{Map, get}
use remelon_db.Prelude.Set.{member}
use remelon_db.Prelude.Result.{Result, ok, err, ◌>>=◌}
use remelon_db.Prelude.Text.{◌+++◌, join}
use remelon_db.Schema.Names.{inherited}
use remelon_db.Schema.Tables.{ColumnSchema, TableSchema, AppSchema}
use remelon_db.RawRecord.{
  SqlValue, sql_text, RawRecord, SyncStatus, synced, created, updated, deleted,
}
use remelon_db.Sync.{value_at}

pub data OperationType : Type 0 where
  create update mark_as_deleted destroy_permanently : OperationType

pub record BatchOperation : Type 0 where
  pub type : OperationType
  pub table : String
  pub raw : RawRecord

abbrev pub status_text : SyncStatus → String
status_text synced = "synced"
status_text created = "created"
status_text updated = "updated"
status_text deleted = "deleted"

-- `"${name}"`
abbrev pub quote : String → String
quote name = "\"" +++ name +++ "\""

abbrev pub raw_values : RawRecord → TableSchema → List SqlValue
raw_values raw table = map (λ c. value_at c.name raw) table.column_array

abbrev pub column_names : TableSchema → List String
column_names table =
    "id" ∷ "_changed" ∷ "_status" ∷ map (λ (c : ColumnSchema). c.name) table.column_array

abbrev pub assignment : String → String
assignment name = "\"" +++ name +++ "\" = ?"

abbrev pub assignments : TableSchema → List String
assignments table =
    "\"_changed\" = ?"
    ∷ "\"_status\" = ?"
    ∷ map (λ (c : ColumnSchema). assignment c.name) table.column_array

-- the statements of the last two cases, which use nothing of a table but its name
abbrev pub mark_sql : String → String
mark_sql name =
    "update \"" +++ name +++ "\" set \"_status\" = 'deleted', \"_changed\" = '' where \"id\" = ?"

abbrev pub destroy_sql : String → String
destroy_sql name = "delete from \"" +++ name +++ "\" where \"id\" = ?"

-- `encodeOperation`
unfoldable pub encode_operation : OperationType → RawRecord → TableSchema → String × List SqlValue
unfolding join
encode_operation create raw table = (
  "insert into \""
      +++ table.name
      +++ "\" ("
      +++ join ", " (map quote (column_names table))
      +++ ") values ("
      +++ join ", " (map (λ (c : String). "?") (column_names table))
      +++ ")",
  sql_text raw.id ∷ sql_text raw.changed ∷ sql_text (status_text raw.status) ∷ raw_values raw table,
)
encode_operation update raw table = (
  "update \""
      +++ table.name
      +++ "\" set "
      +++ join ", " (assignments table)
      +++ " where \"id\" = ?",
  sql_text raw.changed
      ∷ sql_text (status_text raw.status)
      ∷ (raw_values raw table ++ (sql_text raw.id ∷ [])),
)
encode_operation mark_as_deleted raw table = (mark_sql table.name, sql_text raw.id ∷ [])
encode_operation destroy_permanently raw table = (destroy_sql table.name, sql_text raw.id ∷ [])

-- What is thrown: the error on an unknown table, with its name, or the TypeError on the missing
-- `columnArray` of what is not a table.
pub data BatchError : Type 0 where
  unknown_table : String → BatchError
  no_columns : BatchError

-- `name` of a member of `Object.prototype`: that of the function, and of `__proto__` the text that
-- `undefined` has in a template
abbrev pub inherited_name : String → String
inherited_name member =
    if member == "constructor"
    then "Object"
    else if member == "__proto__"
    then "undefined"
    else member

-- `encodeOperation`, on a member of `Object.prototype` in the place of a table
unfoldable pub encode_inherited :
    OperationType → RawRecord → String → Result BatchError (String × List SqlValue)
encode_inherited create raw member = err no_columns
encode_inherited update raw member = err no_columns
encode_inherited mark_as_deleted raw member =
    ok (mark_sql (inherited_name member), sql_text raw.id ∷ [])
encode_inherited destroy_permanently raw member =
    ok (destroy_sql (inherited_name member), sql_text raw.id ∷ [])

-- a statement and the arguments of each of its runs
abbrev pub BatchStatement : Type 0
BatchStatement = String × List (List SqlValue)

-- the arguments join the last statement, if its text is the same
unfoldable pub push_run : List BatchStatement → String → List SqlValue → List BatchStatement
push_run [] sql args = (sql, args ∷ []) ∷ []
push_run ((last, runs) ∷ []) sql args =
    if last == sql then (last, runs ++ (args ∷ [])) ∷ [] else (last, runs) ∷ (sql, args ∷ []) ∷ []
push_run (first ∷ next ∷ statements) sql args = first ∷ push_run (next ∷ statements) sql args

-- `schema.tables[operation.table]`, and the operation encoded for what that is: a table of the schema,
-- else what every object inherits under that name, else undefined
unfoldable pub encode_in : AppSchema → BatchOperation → Result BatchError (String × List SqlValue)
unfolding get encode_operation encode_inherited
encode_in schema o = elim (get o.table schema.tables) [
  | none ↦
      if member o.table inherited
      then encode_inherited o.type o.raw o.table
      else err (unknown_table o.table)
  | some table ↦ ok (encode_operation o.type o.raw table)
]

-- the loop of `encodeBatch`
unfoldable pub encode_into :
    AppSchema → List BatchOperation → List BatchStatement → Result BatchError (List BatchStatement)
unfolding encode_in push_run
encode_into schema [] statements = ok statements
encode_into schema (o ∷ operations) statements = encode_in schema o >>= λ encoded.
    encode_into schema operations (push_run statements encoded.0 encoded.1)

abbrev pub encode_batch : List BatchOperation → AppSchema → Result BatchError (List BatchStatement)
encode_batch operations schema = encode_into schema operations []
