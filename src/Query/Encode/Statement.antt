-- ===== src/Query/Encode/Statement.antt =====
-- Whole statements: the sort columns and `encodeQuery`.
use remelon_db.Prelude.{
  String, ◌≡◌, refl, ◌∙◌, subst, Bool, true, false, not, ◌&&◌, ◌||◌, Option, none, some, List, [],
  ◌∷◌, ◌++◌, map, arith, All, All-append, All-map, All-mono, any, is_some, if◌then◌else◌,
}
use remelon_db.Prelude.Result.{Result, ok, guard, ◌>>=◌, ◌>>◌, >>=-eq-ok, >>-eq-ok, ok-injective}
use remelon_db.Prelude.Text.{◌+++◌, join, count_code}
use remelon_db.Schema.Names.{is_identifier}
use remelon_db.Query.{
  QueryError, counted_limit, counted_sql, UnsafeSqlQuery, SortBy, asc, desc, SortOrder,
  QueryDescription,
}
use remelon_db.Query.Encode.{
  Piece, CompilableQuery, EncodeQueryOptions, Joins, column_ref, encode_wheres, not_deleted,
  encode_join, resolve_direct, resolve_nested, is_to_many, select_sql, order_word, order_sql,
  limit_sql, where_sql, assemble, encode_query,
}
use remelon_db.Query.Encode.Placeholders.{
  marks, IsBound, IsNamed, identifier-unmarked, marks-append, column_ref-unmarked, IsBound-append,
}
use remelon_db.Query.Encode.Bound.{
  wheres-IsBound, where_sql-IsBound, limit_sql-IsBound, select_sql-unmarked,
}
use remelon_db.Query.Encode.Joined.{
  IsAssociation, join-unmarked, not_deleted-unmarked, encode_join-unmarked,
  resolve_direct-IsAssociation, resolve_nested-IsAssociation,
}

-- The names of a query are identifiers, its raw conditions have no placeholder, and it is no raw
-- query.
abbrev pub IsNamedQuery : CompilableQuery → Type 0
IsNamedQuery q =
    (is_identifier q.table ≡ true)
    × All IsNamed q.description.where_clauses
    × All (λ s. is_identifier s.sort_column ≡ true) q.description.sort_by
    × All IsAssociation q.associations
    × (q.description.sql ≡ none)

order_sql-unmarked :
    (table : String) (sorts : List SortBy)
    → marks table ≡ 0
    → All (λ s. is_identifier s.sort_column ≡ true) sorts
    → marks (order_sql table sorts) ≡ 0
unfolding count_code
order_sql-unmarked table [] h k = refl
order_sql-unmarked table (s ∷ sorts) h k =
    marks-append " order by " (join ", " (map term (s ∷ sorts))) refl (
      join-unmarked ", " (map term (s ∷ sorts)) refl (
        All-map (λ w. marks w ≡ 0) term (s ∷ sorts)
          (All-mono (λ s. is_identifier s.sort_column ≡ true) (λ s. marks (term s) ≡ 0) one
            (s ∷ sorts) k)))
  where
    term : SortBy → String
    term s = column_ref table s.sort_column +++ (" " +++ order_word s.sort_order)

    word : (o : SortOrder) → marks (order_word o) ≡ 0
    word asc = refl
    word desc = refl

    one : (s : SortBy) → is_identifier s.sort_column ≡ true → marks (term s) ≡ 0
    one s e =
        marks-append (column_ref table s.sort_column) (" " +++ order_word s.sort_order)
          (column_ref-unmarked table s.sort_column h (identifier-unmarked s.sort_column e))
          (marks-append " " (order_word s.sort_order) refl (word s.sort_order))

assemble-IsBound :
    (options : EncodeQueryOptions) (table : String) (d : QueryDescription) (joins : Joins)
    (out : Piece)
    → is_identifier table ≡ true
    → All IsNamed d.where_clauses
    → All (λ s. is_identifier s.sort_column ≡ true) d.sort_by
    → All IsAssociation joins.0
    → assemble options table d joins ≡ ok out
    → IsBound out
unfolding assemble count_code
assemble-IsBound options table d joins out h ws ss as_ e =
    let (conditions, made, e') = >>=-eq-ok (encode_wheres joins.1 table d.where_clauses) _ e in
    let name = identifier-unmarked table h in
    let parts =
      All-append IsBound conditions (hidden options.filter_deleted)
        (wheres-IsBound joins.1 table d.where_clauses conditions h ws made)
        (hidden-IsBound options.filter_deleted name) in
    let wheres = where_sql-IsBound (conditions ++ hidden options.filter_deleted) parts in
    let limit = limit_sql-IsBound d.take d.skip in
    subst IsBound (ok-injective e') (record {
      bound =
          marks-append (select_sql options.counts (any is_to_many joins.0) table) _
            (select_sql-unmarked options.counts (any is_to_many joins.0) table name)
            (marks-append " from \"" _ refl (
              marks-append table _ name (
                marks-append "\"" _ refl (
                  marks-append (join "" (map (encode_join options.filter_deleted) joins.0)) _
                    (join-unmarked "" (map (encode_join options.filter_deleted) joins.0) refl (
                      All-map (λ w. marks w ≡ 0) (encode_join options.filter_deleted) joins.0
                        (All-mono IsAssociation
                          (λ a. marks (encode_join options.filter_deleted a) ≡ 0)
                          (encode_join-unmarked options.filter_deleted) joins.0 as_)))
                    (IsBound-append (where_sql (conditions ++ hidden options.filter_deleted)).0 _
                      (where_sql (conditions ++ hidden options.filter_deleted)).1
                      (limit_sql d.take d.skip).1 wheres.bound
                      (marks-append (order_sql table d.sort_by) (limit_sql d.take d.skip).0
                          (order_sql-unmarked table d.sort_by name ss) limit.bound
                        ∙ omega arith))))))
          ∙ omega arith;
    })
  where
    hidden : Bool → List Piece
    hidden b = if b then (not_deleted table, []) ∷ [] else []

    hidden-IsBound : (b : Bool) → marks table ≡ 0 → All IsBound (hidden b)
    hidden-IsBound true name = (record { bound = not_deleted-unmarked table name }, tt)
    hidden-IsBound false name = tt

-- what `encodeQuery` does for a query that is no raw query
abbrev compiled : CompilableQuery → EncodeQueryOptions → Result QueryError Piece
compiled query options =
    let d = query.description in
    guard (not (options.counts && (is_some d.take || is_some d.skip))) counted_limit
    >> (resolve_direct query.associations query.table d.join_tables ([], []) >>= λ direct.
        resolve_nested query.associations query.table d.nested_join_tables direct >>= λ joins.
        assemble options query.table d joins)

-- For a query that is no raw query, whose tables, columns, sort columns and associations are named
-- by identifiers and whose raw conditions have no placeholder: the text that `encodeQuery` returns
-- has exactly as many placeholders as it returns arguments, in every mode and with or without the
-- deleted records.
pub encode_query-IsBound :
    (query : CompilableQuery) (options : EncodeQueryOptions) (out : Piece)
    → IsNamedQuery query
    → encode_query query options ≡ ok out
    → IsBound out
unfolding encode_query
encode_query-IsBound query options out (h, ws, ss, as_, plain) e =
    let built : compiled query options ≡ ok out =
      subst (λ raw. ◌≡◌ {A = Result QueryError Piece} (branch raw) (ok out)) plain e in
    let (_, e₁) =
      >>-eq-ok (guard (not (options.counts && (is_some d.take || is_some d.skip))) counted_limit) _
        built in
    let (direct, made, e₂) =
      >>=-eq-ok (resolve_direct query.associations query.table d.join_tables ([], [])) _ e₁ in
    let (joins, made', e₃) =
      >>=-eq-ok (resolve_nested query.associations query.table d.nested_join_tables direct) _ e₂ in
    let used =
      resolve_nested-IsAssociation query.associations query.table d.nested_join_tables direct joins
        as_
        (resolve_direct-IsAssociation query.associations query.table d.join_tables ([], []) direct
          as_ tt made)
        made' in
    assemble-IsBound options query.table d joins out h ws ss used e₃
  where
    d : QueryDescription
    d = query.description

    branch : Option UnsafeSqlQuery → Result QueryError Piece
    branch (some raw) = guard (not options.counts) counted_sql >> ok (raw.sql, raw.values)
    branch none = compiled query options
