-- ===== src/Schema/Encode/Plain.antt =====
-- The statements for a valid table hold nothing but names, blanks and the punctuation of SQL.
use Prim.Native.Char.{code}
use remelon_db.Prelude.{
  ℕ, String, ◌≡◌, refl, sym, ap, ◌∙◌, Bool, true, false, not, ◌&&◌, ◌||◌, List, [], ◌∷◌, map,
  filter, any, eqb, arith, All, All-append, All-map, All-filter, all, if◌then◌else◌, and_left,
  and_right, leb, subst, All-mono,
}
use remelon_db.Prelude.Set.{member}
use remelon_db.Prelude.Result.{ok}
use remelon_db.Prelude.Text.{◌+++◌, join, all_codes, all_codes-append, all_codes_mono}
use remelon_db.Schema.Names.{is_part, is_start, is_identifier, inherited}
use remelon_db.Schema.Tables.{ColumnSchema, TableSchema, is_blob, build_table_schema}
use remelon_db.Schema.Tables.Laws.{is_column, build_table_schema_iff, table_of}
use remelon_db.Schema.Encode.{
  quoted, encode_index, encode_table_indices, column_sql, encode_create_table, encode_table,
}
use remelon_db.Schema.Encode.Quoting.{is_unquoted, quoted_names}
use remelon_db.Schema.Encode.Names.{names_of, encode_table-names}

-- ASCII digits, letters, the underscore, the space, and `"(),`
abbrev pub is_plain : ℕ → Bool
is_plain n =
    (leb 48 n && leb n 57)
    || (leb 65 n && leb n 90)
    || (leb 97 n && leb n 122)
    || any (eqb n) (95 ∷ 32 ∷ 34 ∷ 40 ∷ 41 ∷ 44 ∷ [])

pub record IsPlain (s : String) : Type 0 where
  plain : all_codes is_plain s ≡ true

literal-IsPlain : (s : String) → all_codes is_plain s ≡ true → IsPlain s
literal-IsPlain s h = record { plain = h }

append-IsPlain : {s t : String} → IsPlain s → IsPlain t → IsPlain (s +++ t)
append-IsPlain {s} {t} h k = record {
  plain = all_codes-append is_plain s t ∙ ap (λ b. b && all_codes is_plain t) h.plain ∙ k.plain;
}

-- every character of an identifier
identifier-parts : (s : String) → is_identifier s ≡ true → all_codes is_part s ≡ true
unfolding all_codes is_identifier
identifier-parts String.[] h = refl
identifier-parts (String.◌∷◌ c s) h =
    let first : is_start (code c) ≡ true = and_left (is_start (code c)) _ h in
    ap (λ b. (b || digits (code c)) && all_codes is_part s) first
    ∙ and_right (is_start (code c)) _ h
  where
    digits : ℕ → Bool
    digits n = leb 48 n && leb n 57

part-is_plain : (n : ℕ) → is_part n ≡ true → is_plain n ≡ true
part-is_plain n h = ground arith

part-is_unquoted : (n : ℕ) → is_part n ≡ true → not (eqb n 34) ≡ true
part-is_unquoted n h = ground arith

identifier-IsPlain : (s : String) → is_identifier s ≡ true → IsPlain s
identifier-IsPlain s h =
    literal-IsPlain s (all_codes_mono is_part is_plain s part-is_plain (identifier-parts s h))

identifier-is_unquoted : (s : String) → is_identifier s ≡ true → is_unquoted s ≡ true
identifier-is_unquoted s h =
    all_codes_mono is_part (λ n. not (eqb n 34)) s part-is_unquoted (identifier-parts s h)

quoted-IsPlain : {s : String} → IsPlain s → IsPlain (quoted s)
unfolding all_codes
quoted-IsPlain h =
    append-IsPlain (literal-IsPlain "\"" refl) (append-IsPlain h (literal-IsPlain "\"" refl))

encode_index-IsPlain : (t c : String) → IsPlain t → IsPlain c → IsPlain (encode_index t c)
unfolding all_codes encode_index
encode_index-IsPlain t c h k = append-IsPlain (literal-IsPlain "create index if not exists " refl) (
    append-IsPlain (quoted-IsPlain (append-IsPlain h (append-IsPlain (literal-IsPlain "_" refl) k)))
      (append-IsPlain (literal-IsPlain " on " refl) (
        append-IsPlain (quoted-IsPlain h) (
          append-IsPlain (literal-IsPlain " (" refl)
            (append-IsPlain (quoted-IsPlain k) (literal-IsPlain ")" refl))))))

join-IsPlain :
    (sep : String) (ws : List String) → IsPlain sep → All IsPlain ws → IsPlain (join sep ws)
unfolding all_codes join
join-IsPlain sep [] h k = literal-IsPlain "" refl
join-IsPlain sep (w ∷ []) h k = k.0
join-IsPlain sep (w ∷ v ∷ ws) h (p, k) =
    append-IsPlain p (append-IsPlain h (join-IsPlain sep (v ∷ ws) h k))

column_sql-IsPlain : (c : ColumnSchema) → IsPlain c.name → IsPlain (column_sql c)
unfolding all_codes
column_sql-IsPlain c h = append-IsPlain (quoted-IsPlain h) (at (is_blob c.kind))
  where
    at : (b : Bool) → IsPlain (if b then " BLOB" else "")
    at true = literal-IsPlain " BLOB" refl
    at false = literal-IsPlain "" refl

is_column-is_identifier : (c : ColumnSchema) → is_column c ≡ true → is_identifier c.name ≡ true
unfolding is_column
is_column-is_identifier c h = ground arith

columns-AreIdentifiers :
    (cs : List ColumnSchema)
    → all (λ c. is_column c && not (member c.name inherited)) cs ≡ true
    → All (λ c. is_identifier c.name ≡ true) cs
columns-AreIdentifiers [] h = tt
columns-AreIdentifiers (c ∷ cs) h =
    let good = and_left (is_column c && not (member c.name inherited)) _ h in
    (
      is_column-is_identifier c (and_left (is_column c) (not (member c.name inherited)) good),
      columns-AreIdentifiers cs (and_right (is_column c && not (member c.name inherited)) _ h),
    )

encode_create_table-IsPlain :
    (t : TableSchema)
    → IsPlain t.name
    → All (λ c. IsPlain c.name) t.column_array
    → IsPlain (encode_create_table t)
unfolding all_codes encode_create_table
encode_create_table-IsPlain t h cs = append-IsPlain (literal-IsPlain "create table " refl) (
    append-IsPlain (quoted-IsPlain h) (
      append-IsPlain (literal-IsPlain " (" refl) (
        append-IsPlain
          (join-IsPlain ", " columns (literal-IsPlain ", " refl) (
            literal-IsPlain "\"id\" primary key" refl,
            (
              literal-IsPlain "\"_changed\"" refl,
              (
                literal-IsPlain "\"_status\"" refl,
                All-map IsPlain column_sql t.column_array (
                    All-mono (λ c. IsPlain c.name) (λ c. IsPlain (column_sql c)) column_sql-IsPlain
                      t.column_array cs),
              ),
            ),
          ))
          (literal-IsPlain ")" refl))))
  where
    columns : List String
    columns = "\"id\" primary key" ∷ "\"_changed\"" ∷ "\"_status\"" ∷ map column_sql t.column_array

-- each statement of a table whose names are plain
table-IsPlain :
    (t : TableSchema)
    → IsPlain t.name
    → All (λ c. IsPlain c.name) t.column_array
    → All IsPlain (encode_table t)
unfolding all_codes encode_table encode_table_indices
table-IsPlain t plain columns =
    let indexed = filter (λ c. c.is_indexed) t.column_array in
    (
      encode_create_table-IsPlain t plain columns,
      All-append IsPlain (map (λ c. encode_index t.name c.name) indexed) _
          (All-map IsPlain (λ c. encode_index t.name c.name) indexed
            (All-mono (λ c. IsPlain c.name) (λ c. IsPlain (encode_index t.name c.name))
              (λ c. encode_index-IsPlain t.name c.name plain) indexed
              (All-filter (λ c. IsPlain c.name) (λ c. c.is_indexed) t.column_array columns)))
          (encode_index-IsPlain t.name "_status" plain (literal-IsPlain "_status" refl), tt),
    )

-- For every table that `buildTableSchema` builds, each statement of `encodeTable` consists of ASCII
-- letters and digits, underscores, spaces, double quotes, parentheses and commas. What a reader finds
-- between the double quotes is, statement by statement, the table with the sync columns and its own
-- columns, and then for each indexed column and for the status the index, the table and the column: so
-- no name ends its own quotation, a string, a comment or a statement.
pub encode_table_lem :
    (name : String) (cs : List ColumnSchema) (local_only : Bool) (t : TableSchema)
    → build_table_schema name cs local_only ≡ ok t
    → All IsPlain (encode_table t) × (map quoted_names (encode_table t) ≡ names_of name cs)
encode_table_lem name cs local_only t e =
    let (h, _, good, _, shape) = (build_table_schema_iff name cs local_only t).0 e in
    let columns = columns-AreIdentifiers cs good in
    let Named : TableSchema → Type 0 =
      λ t. All IsPlain (encode_table t) × (map quoted_names (encode_table t) ≡ names_of name cs) in
    subst Named (sym shape) (
      table-IsPlain (table_of name cs local_only) (identifier-IsPlain name h) (
          All-mono (λ c. is_identifier c.name ≡ true) (λ c. IsPlain c.name)
            (λ c. identifier-IsPlain c.name) cs columns),
      encode_table-names (table_of name cs local_only) (identifier-is_unquoted name h) (
          All-mono (λ c. is_identifier c.name ≡ true) (λ c. is_unquoted c.name ≡ true)
            (λ c. identifier-is_unquoted c.name) cs columns),
    )
