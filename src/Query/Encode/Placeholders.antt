-- ===== src/Query/Encode/Placeholders.antt =====
-- Placeholders and arguments: a piece of SQL has as many placeholders as arguments.
use remelon_db.Prelude.{
  ℕ, ◌+◌, String, ◌≡◌, refl, sym, ap₂, ◌∙◌, subst, true, List, [], ◌∷◌, ◌++◌, length, length-append,
  arith, All,
}
use remelon_db.Prelude.Result.{ok, ◌>>=◌, ok-injective, err-ne-ok}
use remelon_db.Prelude.Text.{◌+++◌, join, all_codes, count_code, count_code-append}
use remelon_db.Schema.Names.{is_part, is_identifier}
use remelon_db.RawRecord.{SqlValue}
use remelon_db.Query.{
  ComparisonRight, value, values, column, ComparisonOperator, eq, not_eq, gt, gte, lt, lte, one_of,
  not_in, between, like, not_like, includes, Where, Wheres, nil, cons, compare, and_of, or_of,
  on_table, sql_expr,
}
use remelon_db.Query.Encode.{
  Piece, column_ref, values_of, encode_value_or_column, with_operand, placeholders, with_values,
  with_pattern, between_values, operation, join_pieces, in_parentheses, on_pieces,
}

-- the number of placeholders of a text
abbrev pub marks : String → ℕ
marks s = count_code 63 s

-- The text has a placeholder for each argument.
pub record IsBound (p : Piece) : Type 0 where
  pub bound : marks p.0 ≡ length p.1

-- The columns that a comparison names are identifiers.
abbrev pub NamesColumns : ComparisonRight → Type 0
NamesColumns (column name) = is_identifier name ≡ true
NamesColumns right = Unit

-- The columns and tables that a condition names are identifiers, and its raw parts have no
-- placeholder.
abbrev mutual
  pub IsNamed : Where → Type 0
  IsNamed (compare left c) = (is_identifier left ≡ true) × NamesColumns c.right
  IsNamed (and_of ws) = AreNamed ws
  IsNamed (or_of ws) = AreNamed ws
  IsNamed (on_table table ws) = (is_identifier table ≡ true) × AreNamed ws
  IsNamed (sql_expr sql) = marks sql ≡ 0

  pub AreNamed : Wheres → Type 0
  AreNamed nil = Unit
  AreNamed (cons w ws) = IsNamed w × AreNamed ws

part-unmarked : (s : String) → all_codes is_part s ≡ true → marks s ≡ 0
unfolding all_codes count_code
part-unmarked String.[] h = refl
part-unmarked (String.◌∷◌ c s) h = ground (arith, part-unmarked s)

pub identifier-unmarked : (s : String) → is_identifier s ≡ true → marks s ≡ 0
unfolding all_codes count_code is_identifier
identifier-unmarked String.[] h = refl
identifier-unmarked (String.◌∷◌ c s) h = ground (arith, part-unmarked s)

-- the placeholders of a text between others
pub marks-append : (s t : String) {m n : ℕ} → marks s ≡ m → marks t ≡ n → marks (s +++ t) ≡ m + n
marks-append s t h k = count_code-append 63 s t ∙ ap₂ (λ a b. a + b) h k

pub column_ref-unmarked :
    (table name : String) → marks table ≡ 0 → marks name ≡ 0 → marks (column_ref table name) ≡ 0
unfolding count_code
column_ref-unmarked table name h k =
    marks-append "\"" (table +++ ("\".\"" +++ (name +++ "\""))) refl (
      marks-append table ("\".\"" +++ (name +++ "\"")) h
        (marks-append "\".\"" (name +++ "\"") refl (marks-append name "\"" k refl)))
    ∙ omega arith

placeholders-marks : (vs : List SqlValue) → marks (placeholders vs) ≡ length vs
unfolding count_code join
placeholders-marks [] = refl
placeholders-marks (v ∷ []) = omega arith
placeholders-marks (v ∷ w ∷ vs) =
    marks-append "?" (", " +++ placeholders (w ∷ vs)) refl
      (marks-append ", " (placeholders (w ∷ vs)) refl (placeholders-marks (w ∷ vs)))
    ∙ omega arith

pub IsBound-append :
    (s t : String) (vs ws : List SqlValue)
    → marks s ≡ length vs
    → marks t ≡ length ws
    → marks (s +++ t) ≡ length (vs ++ ws)
IsBound-append s t vs ws h k = marks-append s t h k ∙ sym (length-append vs ws)

-- a text without placeholders before a piece
pub before-IsBound : (s : String) (p : Piece) → marks s ≡ 0 → IsBound p → IsBound (s +++ p.0, p.1)
before-IsBound s p h k = record { bound = marks-append s p.0 h k.bound ∙ omega arith }

with_operand-IsBound :
    (before table : String) (right : ComparisonRight) (out : Piece)
    → marks before ≡ 0
    → marks table ≡ 0
    → NamesColumns right
    → with_operand before (encode_value_or_column table right) ≡ ok out
    → IsBound out
unfolding count_code
with_operand-IsBound before table (value v) out h k n e =
    subst IsBound (ok-injective e) (before-IsBound before ("?", v ∷ []) h (record { bound = refl }))
with_operand-IsBound before table (values vs) out h k n e = elim (err-ne-ok e) [ ]
with_operand-IsBound before table (column name) out h k n e = subst IsBound (ok-injective e) (
    before-IsBound before (column_ref table name, []) h
      (record { bound = column_ref-unmarked table name k (identifier-unmarked name n) }))

with_pattern-IsBound :
    (before after : String) (right : ComparisonRight) (out : Piece)
    → marks before ≡ 0
    → marks after ≡ 0
    → with_pattern before right after ≡ ok out
    → IsBound out
unfolding count_code
with_pattern-IsBound before after (value v) out h k e = subst IsBound (ok-injective e) (
    before-IsBound before ("?" +++ after, v ∷ []) h
      (record { bound = marks-append "?" after refl k ∙ omega arith }))
with_pattern-IsBound before after (values vs) out h k e = elim (err-ne-ok e) [ ]
with_pattern-IsBound before after (column name) out h k e = elim (err-ne-ok e) [ ]

with_values-IsBound :
    (before : String) (vs : List SqlValue) → marks before ≡ 0 → IsBound (with_values before vs)
unfolding count_code
with_values-IsBound before vs h = record {
  bound =
      marks-append before (placeholders vs +++ ")") h
        (marks-append (placeholders vs) ")" (placeholders-marks vs) refl)
      ∙ omega arith;
}

membership-IsBound :
    (before : String) (right : ComparisonRight) (out : Piece)
    → marks before ≡ 0
    → (values_of right >>= λ vs. ok (with_values before vs)) ≡ ok out
    → IsBound out
membership-IsBound before (values vs) out h e =
    subst IsBound (ok-injective e) (with_values-IsBound before vs h)
membership-IsBound before (value v) out h e = elim (err-ne-ok e) [ ]
membership-IsBound before (column name) out h e = elim (err-ne-ok e) [ ]

between_values-IsBound :
    (col : String) (right : ComparisonRight) (out : Piece)
    → marks col ≡ 0
    → (values_of right >>= between_values col) ≡ ok out
    → IsBound out
unfolding count_code
between_values-IsBound col (values (a ∷ b ∷ vs)) out h e =
    subst IsBound (ok-injective e)
      (record { bound = marks-append col " between ? and ?" h refl ∙ omega arith })
between_values-IsBound col (values (a ∷ [])) out h e = elim (err-ne-ok e) [ ]
between_values-IsBound col (values []) out h e = elim (err-ne-ok e) [ ]
between_values-IsBound col (value v) out h e = elim (err-ne-ok e) [ ]
between_values-IsBound col (column name) out h e = elim (err-ne-ok e) [ ]

pub operation-IsBound :
    (table col : String) (right : ComparisonRight) (operator : ComparisonOperator) (out : Piece)
    → marks table ≡ 0
    → marks col ≡ 0
    → NamesColumns right
    → operation table col right operator ≡ ok out
    → IsBound out
unfolding count_code
operation-IsBound table col right eq out h k n e =
    with_operand-IsBound (col +++ " is ") table right out (marks-append col " is " k refl) h n e
operation-IsBound table col right not_eq out h k n e =
    with_operand-IsBound (col +++ " is not ") table right out (marks-append col " is not " k refl) h
      n e
operation-IsBound table col right gt out h k n e =
    with_operand-IsBound (col +++ " > ") table right out (marks-append col " > " k refl) h n e
operation-IsBound table col right gte out h k n e =
    with_operand-IsBound (col +++ " >= ") table right out (marks-append col " >= " k refl) h n e
operation-IsBound table col right lt out h k n e =
    with_operand-IsBound (col +++ " < ") table right out (marks-append col " < " k refl) h n e
operation-IsBound table col right lte out h k n e =
    with_operand-IsBound (col +++ " <= ") table right out (marks-append col " <= " k refl) h n e
operation-IsBound table col right between out h k n e = between_values-IsBound col right out k e
operation-IsBound table col right one_of out h k n e =
    membership-IsBound (col +++ " in (") right out (marks-append col " in (" k refl) e
operation-IsBound table col right not_in out h k n e =
    membership-IsBound (col +++ " not in (") right out (marks-append col " not in (" k refl) e
operation-IsBound table col right like out h k n e =
    with_pattern-IsBound (col +++ " like ") " escape '\\'" right out
      (marks-append col " like " k refl) refl e
operation-IsBound table col right not_like out h k n e =
    with_pattern-IsBound (col +++ " not like ") " escape '\\'" right out
      (marks-append col " not like " k refl) refl e
operation-IsBound table col right includes out h k n e =
    with_pattern-IsBound ("instr(" +++ (col +++ ", ")) ") > 0" right out
      (marks-append "instr(" (col +++ ", ") refl (marks-append col ", " k refl)) refl e

pub join_pieces-IsBound :
    (separator : String) (ps : List Piece)
    → marks separator ≡ 0
    → All IsBound ps
    → IsBound (join_pieces separator ps)
unfolding join_pieces count_code
join_pieces-IsBound separator [] h k = record { bound = refl }
join_pieces-IsBound separator (p ∷ []) h k = k.0
join_pieces-IsBound separator (p ∷ q ∷ ps) h (b, k) =
    let rest = join_pieces separator (q ∷ ps) in
    let later = before-IsBound separator rest h (join_pieces-IsBound separator (q ∷ ps) h k) in
    record { bound = IsBound-append p.0 (separator +++ rest.0) p.1 rest.1 b.bound later.bound }

pub in_parentheses-IsBound : (p : Piece) → IsBound p → IsBound (in_parentheses p)
unfolding count_code
in_parentheses-IsBound p h = record {
  bound = marks-append "(" (p.0 +++ ")") refl (marks-append p.0 ")" h.bound refl) ∙ omega arith;
}

pub on_pieces-IsBound : (ps : List Piece) → All IsBound ps → IsBound (on_pieces ps)
unfolding count_code
on_pieces-IsBound [] h = in_parentheses-IsBound _ (join_pieces-IsBound " and " [] refl h)
on_pieces-IsBound (p ∷ []) h = h.0
on_pieces-IsBound (p ∷ q ∷ ps) h =
    in_parentheses-IsBound _ (join_pieces-IsBound " and " (p ∷ q ∷ ps) refl h)
