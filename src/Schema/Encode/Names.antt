-- ===== src/Schema/Encode/Names.antt =====
-- The names that stand between the double quotes of the statements for a table.
use remelon_db.Prelude.{
  String, ◌≡◌, refl, sym, ap, ap₂, ◌∙◌, Bool, true, false, not, eqb, ◌&&◌, List, [], ◌∷◌, ◌++◌, map,
  filter, All, All-mono, All-filter, All-map, if◌then◌else◌,
}
use remelon_db.Prelude.Text.{◌+++◌, join, all_codes, all_codes-append}
use remelon_db.Schema.Tables.{ColumnSchema, TableSchema, is_blob}
use remelon_db.Schema.Encode.{
  encode_index, encode_table_indices, affinity, column_sql, encode_create_table, encode_table,
}
use remelon_db.Schema.Encode.Quoting.{
  is_unquoted, quoted_names, quoted_names-unquoted, quoted_names-quoted, item_sql,
  quoted_names-join,
}

-- an index, its table and its column
abbrev pub index_names : String → String → List String
index_names table column = (table +++ ("_" +++ column)) ∷ table ∷ column ∷ []

-- What the statements for a table may name: the table with its columns, those of the sync first, and
-- an index for each indexed column and for the status.
abbrev pub names_of : String → List ColumnSchema → List (List String)
names_of name columns =
    (name ∷ "id" ∷ "_changed" ∷ "_status" ∷ map (λ c. c.name) columns)
    ∷ (map (λ c. index_names name c.name) (filter (λ c. c.is_indexed) columns)
        ++ (index_names name "_status" ∷ []))

abbrev pub AreUnquoted : List ColumnSchema → Type 0
AreUnquoted = All (λ c. is_unquoted c.name ≡ true)

encode_index-names :
    (table column : String)
    → is_unquoted table ≡ true
    → is_unquoted column ≡ true
    → quoted_names (encode_index table column) ≡ index_names table column
unfolding encode_index all_codes
encode_index-names table column h k =
    let index : is_unquoted (table +++ ("_" +++ column)) ≡ true =
      all_codes-append (λ n. not (eqb n 34)) table ("_" +++ column)
      ∙ ap₂ (◌&&◌) h (all_codes-append (λ n. not (eqb n 34)) "_" column ∙ k) in
    quoted_names-quoted "create index if not exists " _ _ refl index
    ∙ ap (λ z. (table +++ ("_" +++ column)) ∷ z)
        (quoted_names-quoted " on " table _ refl h
          ∙ ap (λ z. table ∷ z)
              (quoted_names-quoted " (" column ")" refl k
                ∙ ap (λ z. column ∷ z) (quoted_names-unquoted ")" refl)))

indices-names :
    (name : String) (columns : List ColumnSchema)
    → is_unquoted name ≡ true
    → AreUnquoted columns
    → map quoted_names
        (map (λ c. encode_index name c.name) columns ++ (encode_index name "_status" ∷ []))
      ≡ map (λ c. index_names name c.name) columns ++ (index_names name "_status" ∷ [])
unfolding all_codes
indices-names name [] h k = ap (λ z. z ∷ []) (encode_index-names name "_status" h refl)
indices-names name (c ∷ columns) h (k, ks) =
    ap₂ (◌∷◌) (encode_index-names name c.name h k) (indices-names name columns h ks)

-- a column, and its affinity
abbrev column_item : ColumnSchema → String × String
column_item c = (c.name, affinity c)

items-names :
    (columns : List ColumnSchema)
    → (map item_sql (map column_item columns) ≡ map column_sql columns)
      × (map (λ i. i.0) (map column_item columns) ≡ map (λ c. c.name) columns)
items-names [] = (refl, refl)
items-names (c ∷ columns) =
    let (texts, names) = items-names columns in
    (ap (λ z. column_sql c ∷ z) texts, ap (λ z. c.name ∷ z) names)

affinity-is_unquoted : (b : Bool) → is_unquoted (if b then " BLOB" else "") ≡ true
unfolding all_codes
affinity-is_unquoted true = refl
affinity-is_unquoted false = refl

encode_create_table-names :
    (t : TableSchema)
    → is_unquoted t.name ≡ true
    → AreUnquoted t.column_array
    → quoted_names (encode_create_table t)
      ≡ t.name ∷ "id" ∷ "_changed" ∷ "_status" ∷ map (λ c. c.name) t.column_array
unfolding encode_create_table all_codes
encode_create_table-names t h k =
    let (texts, names) = items-names t.column_array in
    let sync : List (String × String) =
      ("id", " primary key") ∷ ("_changed", "") ∷ ("_status", "") ∷ [] in
    quoted_names-quoted "create table " t.name _ refl h
    ∙ ap (λ z. t.name ∷ z)
        (ap
            (λ z. quoted_names (
              " ("
              +++ (join ", " ("\"id\" primary key" ∷ "\"_changed\"" ∷ "\"_status\"" ∷ z) +++ ")")))
            (sym texts)
          ∙ quoted_names-join (sync ++ map column_item t.column_array) " (" refl (
            refl,
            (
              refl,
              (
                refl,
                All-map (λ i. (is_unquoted i.0 && is_unquoted i.1) ≡ true) column_item
                    t.column_array
                    (All-mono (λ c. is_unquoted c.name ≡ true)
                      (λ c. (is_unquoted c.name && is_unquoted (affinity c)) ≡ true)
                      (λ c e. ap₂ (◌&&◌) e (affinity-is_unquoted (is_blob c.kind))) t.column_array
                      k),
              ),
            ),
          )
          ∙ ap (λ z. "id" ∷ "_changed" ∷ "_status" ∷ z) names)

pub encode_table-names :
    (t : TableSchema)
    → is_unquoted t.name ≡ true
    → AreUnquoted t.column_array
    → map quoted_names (encode_table t) ≡ names_of t.name t.column_array
unfolding encode_table encode_table_indices
encode_table-names t h k = ap₂ (◌∷◌) (encode_create_table-names t h k) (
    indices-names t.name (filter (λ c. c.is_indexed) t.column_array) h
      (All-filter (λ c. is_unquoted c.name ≡ true) (λ c. c.is_indexed) t.column_array k))
