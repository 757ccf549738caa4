-- ===== src/Query/Encode/Bound.antt =====
-- Every statement that the encoder builds has as many placeholders as arguments.
use remelon_db.Prelude.{
  ℕ, String, ◌≡◌, refl, subst, Bool, true, false, Option, none, some, List, [], ◌∷◌, All,
}
use remelon_db.Prelude.Set.{member}
use remelon_db.Prelude.Result.{ok, guard, >>=-eq-ok, >>-eq-ok, ok-injective}
use remelon_db.Prelude.Text.{◌+++◌, count_code}
use remelon_db.Schema.Names.{is_identifier}
use remelon_db.Query.{
  not_declared, Where, Wheres, nil, cons, compare, and_of, or_of, on_table, sql_expr,
}
use remelon_db.Query.Encode.{
  Piece, column_ref, encode_comparison, join_pieces, encode_condition, encode_conditions,
  encode_wheres, select_sql, limit_sql, where_sql,
}
use remelon_db.Query.Encode.Placeholders.{
  marks, IsBound, IsNamed, AreNamed, identifier-unmarked, marks-append, column_ref-unmarked,
  before-IsBound, operation-IsBound, join_pieces-IsBound, in_parentheses-IsBound, on_pieces-IsBound,
}

mutual
  unfolding encode_condition encode_comparison count_code

  condition-IsBound :
      (joined : List String) (table : String) (w : Where) (out : Piece)
      → is_identifier table ≡ true
      → IsNamed w
      → encode_condition joined table w ≡ ok out
      → IsBound out
  condition-IsBound joined table (compare left c) out h (n, m) e =
      let t = identifier-unmarked table h in
      operation-IsBound table (column_ref table left) c.right c.operator out t
        (column_ref-unmarked table left t (identifier-unmarked left n)) m e
  condition-IsBound joined table (and_of ws) out h n e =
      let (ps, made, e') = >>=-eq-ok (encode_conditions joined table ws) _ e in
      subst IsBound (ok-injective e') (
        in_parentheses-IsBound (join_pieces " and " ps)
          (join_pieces-IsBound " and " ps refl (conditions-IsBound joined table ws ps h n made)))
  condition-IsBound joined table (or_of ws) out h n e =
      let (ps, made, e') = >>=-eq-ok (encode_conditions joined table ws) _ e in
      subst IsBound (ok-injective e') (
        in_parentheses-IsBound (join_pieces " or " ps)
          (join_pieces-IsBound " or " ps refl (conditions-IsBound joined table ws ps h n made)))
  condition-IsBound joined table (on_table other ws) out h (o, n) e =
      let (_, e') = >>-eq-ok (guard (member other joined) not_declared) _ e in
      let (ps, made, e'') = >>=-eq-ok (encode_conditions joined other ws) _ e' in
      subst IsBound (ok-injective e'')
        (on_pieces-IsBound ps (conditions-IsBound joined other ws ps o n made))
  condition-IsBound joined table (sql_expr sql) out h n e =
      subst IsBound (ok-injective e) (in_parentheses-IsBound (sql, []) (record { bound = n }))

  conditions-IsBound :
      (joined : List String) (table : String) (ws : Wheres) (out : List Piece)
      → is_identifier table ≡ true
      → AreNamed ws
      → encode_conditions joined table ws ≡ ok out
      → All IsBound out
  conditions-IsBound joined table nil out h n e = subst (All IsBound) (ok-injective e) tt
  conditions-IsBound joined table (cons w ws) out h (m, n) e =
      let (p, first, e') = >>=-eq-ok (encode_condition joined table w) _ e in
      let (ps, rest, e'') = >>=-eq-ok (encode_conditions joined table ws) _ e' in
      subst (All IsBound) (ok-injective e'') (
        condition-IsBound joined table w p h m first,
        conditions-IsBound joined table ws ps h n rest,
      )

pub wheres-IsBound :
    (joined : List String) (table : String) (ws : List Where) (out : List Piece)
    → is_identifier table ≡ true
    → All IsNamed ws
    → encode_wheres joined table ws ≡ ok out
    → All IsBound out
unfolding encode_wheres
wheres-IsBound joined table [] out h n e = subst (All IsBound) (ok-injective e) tt
wheres-IsBound joined table (w ∷ ws) out h (m, n) e =
    let (p, first, e') = >>=-eq-ok (encode_condition joined table w) _ e in
    let (ps, rest, e'') = >>=-eq-ok (encode_wheres joined table ws) _ e' in
    subst (All IsBound) (ok-injective e'')
      (condition-IsBound joined table w p h m first, wheres-IsBound joined table ws ps h n rest)

pub where_sql-IsBound : (ps : List Piece) → All IsBound ps → IsBound (where_sql ps)
unfolding count_code
where_sql-IsBound [] h = record { bound = refl }
where_sql-IsBound (p ∷ ps) h =
    before-IsBound " where " (join_pieces " and " (p ∷ ps)) refl
      (join_pieces-IsBound " and " (p ∷ ps) refl h)

pub limit_sql-IsBound : (take skip : Option ℕ) → IsBound (limit_sql take skip)
unfolding count_code
limit_sql-IsBound none skip = record { bound = refl }
limit_sql-IsBound (some n) none = record { bound = refl }
limit_sql-IsBound (some n) (some m) = record { bound = refl }

pub select_sql-unmarked :
    (c d : Bool) (table : String) → marks table ≡ 0 → marks (select_sql c d table) ≡ 0
unfolding count_code
select_sql-unmarked true true table h =
    marks-append "select count(distinct \"" (table +++ "\".\"id\") as \"count\"") refl
      (marks-append table "\".\"id\") as \"count\"" h refl)
select_sql-unmarked true false table h = refl
select_sql-unmarked false true table h =
    marks-append "select distinct \"" (table +++ "\".*") refl (marks-append table "\".*" h refl)
select_sql-unmarked false false table h =
    marks-append "select \"" (table +++ "\".*") refl (marks-append table "\".*" h refl)
