-- ===== src/Query.antt =====
-- packages/core/src/query/ast.ts: a query is data. `Value` is a `SqlValue` that is not bytes; the
-- builders make no other.
pub mod Build
pub mod Describe
pub mod Encode
pub mod Tests
use remelon_db.Prelude.{ℕ, String, Option, List, [], ◌∷◌}
use remelon_db.RawRecord.{SqlValue}

-- the throw sites of Q.ts and encodeQuery.ts
pub data QueryError : Type 0 where
  invalid_column invalid_table undefined_value infinite_value not_primitive null_value : QueryError
  not_numbers no_conditions invalid_count : QueryError
  duplicate_take duplicate_skip duplicate_sql skip_without_take sql_not_alone : QueryError
  counted_sql counted_limit no_association not_joined not_declared : QueryError
  not_single not_multiple : QueryError

pub data ComparisonRight : Type 0 where
  value : SqlValue → ComparisonRight
  values : List SqlValue → ComparisonRight
  column : String → ComparisonRight

pub data ComparisonOperator : Type 0 where
  eq not_eq gt gte lt lte one_of not_in between like not_like includes : ComparisonOperator

pub record Comparison : Type 0 where
  pub operator : ComparisonOperator
  pub right : ComparisonRight

-- A condition, and a list of conditions.
mutual
  pub data Where : Type 0 where
    compare : String → Comparison → Where
    and_of : Wheres → Where
    or_of : Wheres → Where
    on_table : String → Wheres → Where
    sql_expr : String → Where

  pub data Wheres : Type 0 where
    nil : Wheres
    cons : Where → Wheres → Wheres

pub data SortOrder : Type 0 where
  asc desc : SortOrder

pub record SortBy : Type 0 where
  pub sort_column : String
  pub sort_order : SortOrder

-- A join reached through another joined table.
pub record NestedJoinTable : Type 0 where
  pub from : String
  pub to : String

-- It replaces the whole compiled query; its values are still bound.
pub record UnsafeSqlQuery : Type 0 where
  pub sql : String
  pub values : List SqlValue

pub data Clause : Type 0 where
  condition : Where → Clause
  sort_by : SortBy → Clause
  take : ℕ → Clause
  skip : ℕ → Clause
  join_tables : List String → Clause
  nested_join : NestedJoinTable → Clause
  sql_query : UnsafeSqlQuery → Clause

pub record QueryDescription : Type 0 where
  pub where_clauses : List Where
  pub join_tables : List String
  pub nested_join_tables : List NestedJoinTable
  pub sort_by : List SortBy
  pub take : Option ℕ
  pub skip : Option ℕ
  pub sql : Option UnsafeSqlQuery
