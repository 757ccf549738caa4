-- ===== src/Query/Describe.antt =====
-- packages/core/src/query/Q.ts: `buildQueryDescription`.
use remelon_db.Prelude.{
  String, Bool, not, ◌&&◌, ◌||◌, some, none, List, [], ◌∷◌, ◌++◌, is_some, is_empty, ◌≡◌,
}
use remelon_db.Prelude.Set.{unique}
use remelon_db.Prelude.Result.{Result, ok, guard, ◌>>=◌, ◌>>◌}
use remelon_db.Query.{
  QueryError, duplicate_take, duplicate_skip, duplicate_sql, skip_without_take, sql_not_alone,
  Where, Clause, condition, sort_by, take, skip, join_tables, nested_join, sql_query,
  QueryDescription,
}

abbrev pub empty_description : QueryDescription
empty_description = record {
  where_clauses = [];
  join_tables = [];
  nested_join_tables = [];
  sort_by = [];
  take = none;
  skip = none;
  sql = none;
}

-- the tables that a condition joins: those of `Q.on`
abbrev pub joined_by : Where → List String
joined_by (Where.on_table table conditions) = table ∷ []
joined_by w = []

-- one round of the loop over the clauses
abbrev pub add_clause : Clause → QueryDescription → Result QueryError QueryDescription
add_clause (condition w) d = ok (record d {
  where_clauses = d.where_clauses ++ (w ∷ []);
  join_tables = d.join_tables ++ joined_by w;
})
add_clause (sort_by s) d = ok (record d { sort_by = d.sort_by ++ (s ∷ []) })
add_clause (take n) d =
    guard (not (is_some d.take)) duplicate_take >> ok (record d { take = some n })
add_clause (skip n) d =
    guard (not (is_some d.skip)) duplicate_skip >> ok (record d { skip = some n })
add_clause (join_tables ts) d = ok (record d { join_tables = d.join_tables ++ ts })
add_clause (nested_join n) d =
    ok (record d { nested_join_tables = d.nested_join_tables ++ (n ∷ []) })
add_clause (sql_query q) d =
    guard (not (is_some d.sql)) duplicate_sql >> ok (record d { sql = some q })

unfoldable pub add_clauses : List Clause → QueryDescription → Result QueryError QueryDescription
add_clauses [] d = ok d
add_clauses (c ∷ cs) d = add_clause c d >>= add_clauses cs

-- conditions, sorts or limits beside a raw query
abbrev pub has_parts : QueryDescription → Bool
has_parts d =
    not (is_empty d.where_clauses) || not (is_empty d.sort_by) || is_some d.take || is_some d.skip

unfoldable pub build_query_description : List Clause → Result QueryError QueryDescription
unfolding add_clauses
build_query_description clauses = add_clauses clauses empty_description >>= λ d.
    guard (not (is_some d.skip && not (is_some d.take))) skip_without_take
    >> (guard (not (is_some d.sql && has_parts d)) sql_not_alone
        >> ok (record d { join_tables = unique d.join_tables }))

-- the conditions among the clauses, in order
abbrev pub conditions_of : List Clause → List Where
conditions_of [] = []
conditions_of (condition w ∷ cs) = w ∷ conditions_of cs
conditions_of (c ∷ cs) = conditions_of cs

-- the tables that the clauses join directly, in order
abbrev pub joins_of : List Clause → List String
joins_of [] = []
joins_of (condition w ∷ cs) = joined_by w ++ joins_of cs
joins_of (join_tables ts ∷ cs) = ts ++ joins_of cs
joins_of (c ∷ cs) = joins_of cs

abbrev IsDescribed : List Clause → QueryDescription → QueryDescription → Type 0
IsDescribed cs d out =
    (out.where_clauses ≡ d.where_clauses ++ conditions_of cs)
    × (out.join_tables ≡ d.join_tables ++ joins_of cs)
