-- ===== src/Database/Batch/Marks.antt =====
-- A statement has a placeholder for each of its arguments.
use remelon_db.Prelude.{
  ℕ, ◌+◌, String, ◌≡◌, refl, ◌∙◌, List, [], ◌∷◌, length, length-append, length-map, map, arith, All,
}
use remelon_db.Prelude.Text.{◌+++◌, join, count_code}
use remelon_db.Schema.Tables.{ColumnSchema, TableSchema}
use remelon_db.RawRecord.{sql_text, RawRecord}
use remelon_db.Query.Encode.Placeholders.{marks, marks-append}
use remelon_db.Sync.{value_at}
use remelon_db.Database.Batch.{
  OperationType, create, update, mark_as_deleted, destroy_permanently, quote, raw_values,
  column_names, assignment, assignments, encode_operation,
}

-- the names of a table and of its columns have no placeholder
pub record IsUnmarked (table : TableSchema) : Type 0 where
  pub name : marks table.name ≡ 0
  pub columns : All (λ (c : ColumnSchema). marks c.name ≡ 0) table.column_array

-- the placeholders of a list of pieces
total_marks : List String → ℕ
total_marks [] = 0
total_marks (p ∷ pieces) = marks p + total_marks pieces

marks-join : (pieces : List String) → marks (join ", " pieces) ≡ total_marks pieces
unfolding join count_code total_marks
marks-join [] = refl
marks-join (p ∷ []) = omega arith
marks-join (p ∷ q ∷ pieces) =
    marks-append p (", " +++ join ", " (q ∷ pieces)) refl
      (marks-append ", " (join ", " (q ∷ pieces)) refl (marks-join (q ∷ pieces)))
    ∙ omega arith

-- a name between quotation marks
marks-quote : (name : String) → marks name ≡ 0 → marks (quote name) ≡ 0
unfolding count_code
marks-quote name h = marks-append ("\"" +++ name) "\"" (marks-append "\"" name refl h) refl

marks-assignment : (name : String) → marks name ≡ 0 → marks (assignment name) ≡ 1
unfolding count_code
marks-assignment name h = marks-append ("\"" +++ name) "\" = ?" (marks-append "\"" name refl h) refl

total_marks-quote :
    (columns : List ColumnSchema)
    → All (λ (c : ColumnSchema). marks c.name ≡ 0) columns
    → total_marks (map quote (map (λ (c : ColumnSchema). c.name) columns)) ≡ 0
unfolding total_marks
total_marks-quote [] h = refl
total_marks-quote (c ∷ columns) (h, t) =
    omega (arith, marks-quote c.name h, total_marks-quote columns t)

total_marks-assignments :
    (columns : List ColumnSchema)
    → All (λ (c : ColumnSchema). marks c.name ≡ 0) columns
    → total_marks (map (λ (c : ColumnSchema). assignment c.name) columns) ≡ length columns
unfolding total_marks
total_marks-assignments [] h = refl
total_marks-assignments (c ∷ columns) (h, t) =
    omega (arith, marks-assignment c.name h, total_marks-assignments columns t)

total_marks-placeholders :
    (names : List String) → total_marks (map (λ (c : String). "?") names) ≡ length names
unfolding total_marks count_code
total_marks-placeholders [] = refl
total_marks-placeholders (c ∷ names) = omega (arith, total_marks-placeholders names)

-- the table's name in the text of a statement
marks-around :
    (before after : String) (table : TableSchema) (n : ℕ)
    → IsUnmarked table
    → marks before ≡ 0
    → marks after ≡ n
    → marks (before +++ table.name +++ after) ≡ n
marks-around before after table n k h l =
    marks-append (before +++ table.name) after (marks-append before table.name h k.name) l
    ∙ omega arith

-- Where neither the table's name nor the names of its columns have a placeholder, each statement that
-- an operation is encoded as has as many placeholders as it has arguments.
pub encode_operation-marks :
    (type : OperationType) (raw : RawRecord) (table : TableSchema)
    → IsUnmarked table
    → marks (encode_operation type raw table).0 ≡ length (encode_operation type raw table).1
unfolding encode_operation count_code total_marks
encode_operation-marks create raw table k =
    let names = column_names table in
    let quoted = join ", " (map quote names) in
    let placeholders = join ", " (map (λ (c : String). "?") names) in
    let start = "insert into \"" +++ table.name +++ "\" (" in
    marks-append (start +++ quoted +++ ") values (" +++ placeholders) ")"
      (marks-append (start +++ quoted +++ ") values (") placeholders
        (marks-append (start +++ quoted) ") values ("
          (marks-append start quoted (marks-around "insert into \"" "\" (" table 0 k refl refl)
            (marks-join (map quote names)))
          refl)
        (marks-join (map (λ (c : String). "?") names)))
      refl
    ∙ omega (
      arith,
      total_marks-quote table.column_array k.columns,
      total_marks-placeholders names,
      length-map table.column_array (λ (c : ColumnSchema). c.name),
      length-map table.column_array (λ (c : ColumnSchema). value_at c.name raw),
    )
encode_operation-marks update raw table k =
    let set = join ", " (assignments table) in
    let start = "update \"" +++ table.name +++ "\" set " in
    marks-append (start +++ set) " where \"id\" = ?"
      (marks-append start set (marks-around "update \"" "\" set " table 0 k refl refl)
        (marks-join (assignments table)))
      refl
    ∙ omega (
      arith,
      total_marks-assignments table.column_array k.columns,
      length-append (raw_values raw table) (sql_text raw.id ∷ []),
      length-map table.column_array (λ (c : ColumnSchema). value_at c.name raw),
    )
encode_operation-marks mark_as_deleted raw table k = marks-around "update \"" _ table 1 k refl refl
encode_operation-marks destroy_permanently raw table k =
    marks-around "delete from \"" _ table 1 k refl refl
