-- ===== src/Query/Tests.antt =====
-- Runs of the query builders and of the encoder.
use remelon_db.Prelude.{◌≡◌, refl, false, List, [], ◌∷◌, some, none}
use remelon_db.Prelude.Result.{ok, err}
use remelon_db.RawRecord.{sql_text}
use remelon_db.Query.{
  skip_without_take, Where, compare, on_table, nil, cons, value, Clause, condition, join_tables,
  take, skip, QueryDescription,
}
use remelon_db.Query.Describe.{build_query_description}
use remelon_db.Prelude.{true}
use remelon_db.Wire.{whole}
use remelon_db.RawRecord.{sql_number}
use remelon_db.Prelude.Set.{member}
use remelon_db.Schema.Names.{is_identifier}
use remelon_db.Query.Encode.{belongs_to, CompilableQuery, EncodeQueryOptions, Piece, encode_query}
use remelon_db.Query.Encode.Placeholders.{IsBound}
use remelon_db.Query.Encode.Statement.{encode_query-IsBound}

abbrev named : Where
named =
    compare "name" (record {
      operator = remelon_db.Query.ComparisonOperator.eq;
      right = value (sql_text "milk");
    })

abbrev clauses : List Clause
clauses =
    condition (on_table "lists" (cons named nil))
    ∷ join_tables ("lists" ∷ "users" ∷ [])
    ∷ take 3
    ∷ []

abbrev description : QueryDescription
description = record {
  where_clauses = on_table "lists" (cons named nil) ∷ [];
  join_tables = "lists" ∷ "users" ∷ [];
  nested_join_tables = [];
  sort_by = [];
  take = some 3;
  skip = none;
  sql = none;
}

skips : build_query_description (skip 2 ∷ []) ≡ err skip_without_take
unfolding build_query_description
skips = refl

abbrev query : CompilableQuery
query = record {
  table = "todos";
  description = record description { join_tables = "lists" ∷ [] };
  associations = record { from = "todos"; to = "lists"; info = belongs_to "list_id" } ∷ [];
}

abbrev selecting : EncodeQueryOptions
selecting = record { counts = false; filter_deleted = true }

abbrev statement : Piece
statement = (
  "select \"todos\".* from \"todos\" left join \"lists\" on \"lists\".\"id\" = \"todos\".\"list_id\" and \"lists\".\"_status\" is not 'deleted' where \"lists\".\"name\" is ? and \"todos\".\"_status\" is not 'deleted' limit ?",
  sql_text "milk" ∷ sql_number (whole 3) ∷ [],
)

encodes : encode_query query selecting ≡ ok statement
unfolding encode_query member
encodes = refl

encode_query-IsBound_example : IsBound statement
unfolding is_identifier
encode_query-IsBound_example =
    encode_query-IsBound query selecting statement
      (refl, ((refl, ((refl, tt), tt)), tt), tt, ((refl, refl, refl), tt), refl) encodes
