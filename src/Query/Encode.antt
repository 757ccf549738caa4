-- ===== src/Query/Encode.antt =====
-- packages/core/src/query/encodeQuery.ts: from a description to SQL with placeholders. A piece of
-- SQL is a text and the arguments pushed while it was written, in the order of its placeholders.
pub mod Placeholders
pub mod Bound
pub mod Joined
pub mod Statement
use remelon_db.Prelude.{
  ℕ, String, Bool, true, false, not, ◌&&◌, ◌||◌, Option, some, none, List, [], ◌∷◌, ◌++◌, ◌==◌, map,
  any, is_some, is_empty, length, eqb, if◌then◌else◌,
}
use remelon_db.Prelude.Set.{member}
use remelon_db.Prelude.Result.{Result, ok, err, guard, ◌>>=◌, ◌>>◌}
use remelon_db.Prelude.Text.{◌+++◌, join}
use remelon_db.Wire.{whole}
use remelon_db.RawRecord.{SqlValue, sql_number}
use remelon_db.Query.{
  QueryError, counted_sql, counted_limit, no_association, not_joined, not_declared, not_single,
  not_multiple, ComparisonRight, value, values, column, ComparisonOperator, eq, not_eq, gt, gte, lt,
  lte, one_of, not_in, between, like, not_like, includes, Comparison, Where, Wheres, nil, cons,
  compare, and_of, or_of, on_table, sql_expr, SortOrder, asc, desc, SortBy, NestedJoinTable,
  QueryDescription,
}

-- keyed by the column of the child table that holds the parent's id
pub data AssociationInfo : Type 0 where
  belongs_to has_many : String → AssociationInfo

pub record QueryAssociation : Type 0 where
  pub from : String
  pub to : String
  pub info : AssociationInfo

pub record CompilableQuery : Type 0 where
  pub table : String
  pub description : QueryDescription
  pub associations : List QueryAssociation

-- whether the mode is 'count', and whether deleted records are left out
pub record EncodeQueryOptions : Type 0 where
  pub counts : Bool
  pub filter_deleted : Bool

abbrev pub Piece : Type 0
Piece = String × List SqlValue

-- "table"."name"
abbrev pub column_ref : String → String → String
column_ref table name = "\"" +++ (table +++ ("\".\"" +++ (name +++ "\"")))

abbrev pub single_value_of : ComparisonRight → Result QueryError SqlValue
single_value_of (value v) = ok v
single_value_of right = err not_single

abbrev pub values_of : ComparisonRight → Result QueryError (List SqlValue)
values_of (values vs) = ok vs
values_of right = err not_multiple

abbrev pub encode_value_or_column : String → ComparisonRight → Result QueryError Piece
encode_value_or_column table (column name) = ok (column_ref table name, [])
encode_value_or_column table right = single_value_of right >>= λ v. ok ("?", v ∷ [])

-- the text before the operand of a comparison with a value or a column
abbrev pub with_operand : String → Result QueryError Piece → Result QueryError Piece
with_operand before piece = piece >>= λ p. ok (before +++ p.0, p.1)

-- one placeholder for each value
abbrev pub placeholders : List SqlValue → String
placeholders vs = join ", " (map (λ _. "?") vs)

abbrev pub with_values : String → List SqlValue → Piece
with_values before vs = (before +++ (placeholders vs +++ ")"), vs)

abbrev pub with_pattern : String → ComparisonRight → String → Result QueryError Piece
with_pattern before right after =
    single_value_of right >>= λ v. ok (before +++ ("?" +++ after), v ∷ [])

-- Only `Q.between` makes the operator, with two values; the rest would be ignored.
abbrev pub between_values : String → List SqlValue → Result QueryError Piece
between_values col (a ∷ b ∷ vs) = ok (col +++ " between ? and ?", a ∷ b ∷ [])
between_values col vs = err not_multiple

abbrev pub operation :
    String → String → ComparisonRight → ComparisonOperator → Result QueryError Piece
operation table col right eq = with_operand (col +++ " is ") (encode_value_or_column table right)
operation table col right not_eq =
    with_operand (col +++ " is not ") (encode_value_or_column table right)
operation table col right gt = with_operand (col +++ " > ") (encode_value_or_column table right)
operation table col right gte = with_operand (col +++ " >= ") (encode_value_or_column table right)
operation table col right lt = with_operand (col +++ " < ") (encode_value_or_column table right)
operation table col right lte = with_operand (col +++ " <= ") (encode_value_or_column table right)
operation table col right between = values_of right >>= between_values col
operation table col right one_of = values_of right >>= λ vs. ok (with_values (col +++ " in (") vs)
operation table col right not_in =
    values_of right >>= λ vs. ok (with_values (col +++ " not in (") vs)
operation table col right like = with_pattern (col +++ " like ") right " escape '\\'"
operation table col right not_like = with_pattern (col +++ " not like ") right " escape '\\'"
operation table col right includes = with_pattern ("instr(" +++ (col +++ ", ")) right ") > 0"

unfoldable pub encode_comparison : String → String → Comparison → Result QueryError Piece
unfolding join
encode_comparison table left c = operation table (column_ref table left) c.right c.operator

-- the texts of the pieces joined, and their arguments one after the other
unfoldable pub join_pieces : String → List Piece → Piece
unfolding join
join_pieces separator [] = ("", [])
join_pieces separator (p ∷ ps) = elim ps [
  | [] ↦ p
  | _ ∷ _ ↦ let rest = join_pieces separator ps in (p.0 +++ (separator +++ rest.0), p.1 ++ rest.1)
]

abbrev pub in_parentheses : Piece → Piece
in_parentheses p = ("(" +++ (p.0 +++ ")"), p.1)

-- `parts.length === 1 ? parts[0] : (…)`
abbrev pub on_pieces : List Piece → Piece
on_pieces (p ∷ []) = p
on_pieces ps = in_parentheses (join_pieces " and " ps)

unfoldable mutual
  unfolding encode_comparison join_pieces

  pub encode_condition : List String → String → Where → Result QueryError Piece
  encode_condition joined table (compare left c) = encode_comparison table left c
  encode_condition joined table (and_of ws) =
      encode_conditions joined table ws >>= λ ps. ok (in_parentheses (join_pieces " and " ps))
  encode_condition joined table (or_of ws) =
      encode_conditions joined table ws >>= λ ps. ok (in_parentheses (join_pieces " or " ps))
  encode_condition joined table (on_table other ws) =
      guard (member other joined) not_declared
      >> (encode_conditions joined other ws >>= λ ps. ok (on_pieces ps))
  encode_condition joined table (sql_expr sql) = ok ("(" +++ (sql +++ ")"), [])

  pub encode_conditions : List String → String → Wheres → Result QueryError (List Piece)
  encode_conditions joined table nil = ok []
  encode_conditions joined table (cons w ws) = encode_condition joined table w >>= λ p.
      encode_conditions joined table ws >>= λ ps. ok (p ∷ ps)

abbrev pub not_deleted : String → String
not_deleted table = column_ref table "_status" +++ " is not 'deleted'"

abbrev pub join_key : QueryAssociation → String
join_key a = elim a.info [
  | belongs_to key ↦ column_ref a.to "id" +++ (" = " +++ column_ref a.from key)
  | has_many foreign_key ↦ column_ref a.to foreign_key +++ (" = " +++ column_ref a.from "id")
]

unfoldable pub encode_join : Bool → QueryAssociation → String
encode_join filter_deleted a =
    " left join \""
    +++ (a.to
        +++ ("\" on "
            +++ (join_key a +++ (if filter_deleted then " and " +++ not_deleted a.to else ""))))

unfoldable pub find_association :
    List QueryAssociation → String → String → Result QueryError QueryAssociation
find_association [] from to = err no_association
find_association (a ∷ as_) from to =
    if a.from == from && a.to == to then ok a else find_association as_ from to

-- The joins that are used, and the set of joined tables.
abbrev pub Joins : Type 0
Joins = List QueryAssociation × List String

unfoldable pub resolve_direct :
    List QueryAssociation → String → List String → Joins → Result QueryError Joins
unfolding find_association
resolve_direct known table [] (used, joined) = ok (used, joined)
resolve_direct known table (to ∷ rest) (used, joined) = find_association known table to >>= λ a.
    resolve_direct known table rest (used ++ (a ∷ []), to ∷ joined)

unfoldable pub resolve_nested :
    List QueryAssociation → String → List NestedJoinTable → Joins → Result QueryError Joins
unfolding find_association
resolve_nested known table [] (used, joined) = ok (used, joined)
resolve_nested known table (n ∷ rest) (used, joined) =
    guard (n.from == table || member n.from joined) not_joined
    >> (find_association known n.from n.to >>= λ a.
        resolve_nested known table rest (used ++ (a ∷ []), n.to ∷ joined))

abbrev pub is_to_many : QueryAssociation → Bool
is_to_many a = elim a.info [ belongs_to _ ↦ false | has_many _ ↦ true ]

abbrev pub select_sql : Bool → Bool → String → String
select_sql true true table = "select count(distinct \"" +++ (table +++ "\".\"id\") as \"count\"")
select_sql true false table = "select count(*) as \"count\""
select_sql false true table = "select distinct \"" +++ (table +++ "\".*")
select_sql false false table = "select \"" +++ (table +++ "\".*")

abbrev pub order_word : SortOrder → String
order_word asc = "asc"
order_word desc = "desc"

abbrev pub order_sql : String → List SortBy → String
order_sql table sorts =
    if is_empty sorts
    then ""
    else " order by "
      +++ join ", "
          (map (λ s. column_ref table s.sort_column +++ (" " +++ order_word s.sort_order)) sorts)

abbrev pub limit_sql : Option ℕ → Option ℕ → Piece
limit_sql none skip = ("", [])
limit_sql (some n) none = (" limit ?", sql_number (whole n) ∷ [])
limit_sql (some n) (some m) =
    (" limit ? offset ?", sql_number (whole n) ∷ sql_number (whole m) ∷ [])

unfoldable pub encode_wheres : List String → String → List Where → Result QueryError (List Piece)
unfolding encode_condition
encode_wheres joined table [] = ok []
encode_wheres joined table (w ∷ ws) =
    encode_condition joined table w >>= λ p. encode_wheres joined table ws >>= λ ps. ok (p ∷ ps)

abbrev pub where_sql : List Piece → Piece
where_sql [] = ("", [])
where_sql (p ∷ ps) = let all = join_pieces " and " (p ∷ ps) in (" where " +++ all.0, all.1)

-- the statement of a query that is no raw SQL, its joins resolved
unfoldable pub assemble :
    EncodeQueryOptions → String → QueryDescription → Joins → Result QueryError Piece
unfolding encode_wheres encode_join join join_pieces
assemble options table d joins = encode_wheres joins.1 table d.where_clauses >>= λ conditions.
    let parts =
      conditions ++ (if options.filter_deleted then (not_deleted table, []) ∷ [] else []) in
    let wheres = where_sql parts in
    let limit = limit_sql d.take d.skip in
    ok (
      select_sql options.counts (any is_to_many joins.0) table
          +++ (" from \""
              +++ (table
                  +++ ("\""
                      +++ (join "" (map (encode_join options.filter_deleted) joins.0)
                          +++ (wheres.0 +++ (order_sql table d.sort_by +++ limit.0)))))),
      wheres.1 ++ limit.1,
    )

unfoldable pub encode_query : CompilableQuery → EncodeQueryOptions → Result QueryError Piece
unfolding assemble resolve_direct resolve_nested
encode_query query options = elim query.description.sql [
  | some raw ↦ guard (not options.counts) counted_sql >> ok (raw.sql, raw.values)
  | none ↦
      let d = query.description in
      guard (not (options.counts && (is_some d.take || is_some d.skip))) counted_limit
      >> (resolve_direct query.associations query.table d.join_tables ([], []) >>= λ direct.
          resolve_nested query.associations query.table d.nested_join_tables direct >>= λ joins.
          assemble options query.table d joins)
]
