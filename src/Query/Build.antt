-- ===== src/Query/Build.antt =====
-- packages/core/src/query/Q.ts: the builders of comparisons and clauses.
use remelon_db.Prelude.{ℕ, String, Bool, true, false, List, [], ◌∷◌}
use remelon_db.Prelude.Result.{Result, ok, err, guard, traverse, ◌>>=◌, ◌>>◌}
use remelon_db.Wire.{
  JsNumber, whole, non_finite, JsValue, undefined, null, boolean, number, string, bytes, other,
}
use remelon_db.Schema.Names.{is_identifier}
use remelon_db.RawRecord.{SqlValue, sql_null, sql_text, sql_number, sql_boolean}
use remelon_db.Query.{
  QueryError, invalid_column, invalid_table, undefined_value, infinite_value, not_primitive,
  null_value, not_numbers, no_conditions, invalid_count, ComparisonRight, ComparisonOperator,
  Comparison, Where, Wheres, nil, cons, SortOrder, Clause,
}

unfoldable pub ensure_column : String → Result QueryError (Unit {0})
ensure_column name = guard (is_identifier name) invalid_column

unfoldable pub ensure_table : String → Result QueryError (Unit {0})
ensure_table name = guard (is_identifier name) invalid_table

abbrev ensure_number : JsNumber → Result QueryError SqlValue
ensure_number (non_finite n) = err infinite_value
ensure_number n = ok (sql_number n)

unfoldable pub ensure_value : JsValue → Result QueryError SqlValue
ensure_value undefined = err undefined_value
ensure_value null = ok sql_null
ensure_value (string s) = ok (sql_text s)
ensure_value (number n) = ensure_number n
ensure_value (boolean b) = ok (sql_boolean b)
ensure_value (bytes bs) = err not_primitive
ensure_value (other n) = err not_primitive

abbrev refuse_null : SqlValue → Result QueryError SqlValue
refuse_null sql_null = err null_value
refuse_null v = ok v

unfoldable pub ensure_non_null_value : JsValue → Result QueryError SqlValue
unfolding ensure_value
ensure_non_null_value v = ensure_value v >>= refuse_null

-- What may stand to the right of an operator: a value, or what `Q.column` returned.
pub data Operand : Type 0 where
  literal : JsValue → Operand
  column_of : String → Operand

-- `Q.column`
unfoldable pub column : String → Result QueryError Operand
unfolding ensure_column
column name = ensure_column name >> ok (column_of name)

unfoldable pub value_or_column :
    ComparisonOperator
    → Operand
    → (JsValue → Result QueryError SqlValue)
    → Result QueryError Comparison
value_or_column operator (column_of name) ensure =
    ok (record { operator = operator; right = ComparisonRight.column name })
value_or_column operator (literal v) ensure = ensure v >>= λ checked.
    ok (record { operator = operator; right = ComparisonRight.value checked })

unfoldable pub eq : Operand → Result QueryError Comparison
unfolding value_or_column ensure_value
eq v = value_or_column ComparisonOperator.eq v ensure_value

unfoldable pub not_eq : Operand → Result QueryError Comparison
unfolding value_or_column ensure_value
not_eq v = value_or_column ComparisonOperator.not_eq v ensure_value

-- `gt`, `gte`, `lt` and `lte`, by their operator
unfoldable pub ordering : ComparisonOperator → Operand → Result QueryError Comparison
unfolding value_or_column ensure_non_null_value
ordering operator v = value_or_column operator v ensure_non_null_value

-- `oneOf` and `notIn`
unfoldable pub membership : ComparisonOperator → List JsValue → Result QueryError Comparison
unfolding traverse ensure_non_null_value
membership operator vs = traverse ensure_non_null_value vs >>= λ checked.
    ok (record { operator = operator; right = ComparisonRight.values checked })

abbrev is_number_value : JsValue → Bool
is_number_value (number n) = true
is_number_value v = false

unfoldable pub between : JsValue → JsValue → Result QueryError Comparison
unfolding ensure_non_null_value
between start end =
    guard (is_number_value start) not_numbers
    >> (guard (is_number_value end) not_numbers
        >> (ensure_non_null_value start >>= λ a. ensure_non_null_value end >>= λ b. ok (record {
          operator = ComparisonOperator.between;
          right = ComparisonRight.values (a ∷ b ∷ []);
        })))

-- `like`, `notLike` and `includes`
abbrev pub pattern_test : ComparisonOperator → String → Comparison
pattern_test operator pattern = record {
  operator = operator;
  right = ComparisonRight.value (sql_text pattern);
}

-- `Q.where`, after a value that is no comparison was passed to `eq`
unfoldable pub where_column : String → Comparison → Result QueryError Where
unfolding ensure_column
where_column left comparison = ensure_column left >> ok (Where.compare left comparison)

-- at least one condition
abbrev pub ensure_conditions : Wheres → Result QueryError (Unit {0})
ensure_conditions nil = err no_conditions
ensure_conditions (cons w ws) = ok tt

unfoldable pub and_all : Wheres → Result QueryError Where
and_all conditions = ensure_conditions conditions >> ok (Where.and_of conditions)

unfoldable pub or_all : Wheres → Result QueryError Where
or_all conditions = ensure_conditions conditions >> ok (Where.or_of conditions)

unfoldable pub on : String → Wheres → Result QueryError Where
unfolding ensure_table
on table conditions =
    ensure_table table >> (ensure_conditions conditions >> ok (Where.on_table table conditions))

unfoldable pub sort_by : String → SortOrder → Result QueryError Clause
unfolding ensure_column
sort_by name order =
    ensure_column name >> ok (Clause.sort_by (record { sort_column = name; sort_order = order }))

unfoldable pub ensure_count : JsNumber → Result QueryError ℕ
ensure_count (whole n) = ok n
ensure_count n = err invalid_count

unfoldable pub take : JsNumber → Result QueryError Clause
unfolding ensure_count
take count = ensure_count count >>= λ n. ok (Clause.take n)

unfoldable pub skip : JsNumber → Result QueryError Clause
unfolding ensure_count
skip count = ensure_count count >>= λ n. ok (Clause.skip n)

unfoldable pub join_tables : List String → Result QueryError Clause
unfolding ensure_table traverse
join_tables tables = traverse ensure_table tables >>= λ _. ok (Clause.join_tables tables)

unfoldable pub nested_join : String → String → Result QueryError Clause
unfolding ensure_table
nested_join from to =
    ensure_table from
    >> (ensure_table to >> ok (Clause.nested_join (record { from = from; to = to })))

unfoldable pub unsafe_sql_query : String → List JsValue → Result QueryError Clause
unfolding ensure_value traverse
unsafe_sql_query sql vs = traverse ensure_value vs >>= λ checked.
    ok (Clause.sql_query (record { sql = sql; values = checked }))
