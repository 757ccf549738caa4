-- ===== src/RawRecord/Values.antt =====
-- Records that pass the trust boundary: every column there, each value of its column's type.
use mathlib.Core.List.{append_assoc, append-nil}
use remelon_db.Prelude.{
  String, ◌≡◌, refl, sym, ap, ◌∙◌, subst, Bool, true, false, not, List, [], ◌∷◌, ◌++◌, ◌==◌, eq_iff,
  map, all, leb, ◌+◌, arith, if◌then◌else◌, and_right, ◌⊎◌, inl, inr,
}
use remelon_db.Prelude.Map.{Map, get, set, has, has-set, set-new}
use remelon_db.Prelude.Set.{member}
use remelon_db.Prelude.Result.{ok, >>=-eq-ok, ok-injective}
use remelon_db.Wire.{
  JsNumber, whole, negative, fraction, non_finite, JsValue, boolean, number, string, bytes,
  DirtyRaw, field,
}
use remelon_db.Server.Cursor.{max_safe_integer}
use remelon_db.Schema.Tables.{
  ColumnType, string_type, number_type, boolean_type, blob_type, ColumnSchema, TableSchema,
  build_table_schema,
}
use remelon_db.Schema.Tables.Laws.{are_distinct, build_table_schema_iff}
use remelon_db.RawRecord.{
  SqlValue, sql_null, sql_text, sql_number, sql_boolean, sql_bytes, RawRecord, id_or, null_value,
  boolean_of_number, sanitize_typed, sanitize_value, sanitize_columns, sanitized_raw,
}

-- a finite number that is a safe integer if it is an integer
abbrev pub is_storable : JsNumber → Bool
is_storable (whole n) = leb n max_safe_integer
is_storable (negative n) = leb (n + 1) max_safe_integer
is_storable (fraction n) = true
is_storable (non_finite n) = false

abbrev pub has_type : ColumnType → SqlValue → Bool
has_type string_type (sql_text s) = true
has_type number_type (sql_number n) = is_storable n
has_type boolean_type (sql_boolean b) = true
has_type blob_type (sql_bytes bs) = true
has_type kind value = false

abbrev pub is_null : SqlValue → Bool
is_null sql_null = true
is_null value = false

-- Null is for optional columns; anything else has the type of the column.
unfoldable pub suits : ColumnSchema → SqlValue → Bool
suits c value = if is_null value then c.is_optional else has_type c.kind value

-- The columns of a record are those of the table, in order, and each value suits its column.
abbrev pub AreValuesOf : List ColumnSchema → Map SqlValue → Type 0
AreValuesOf [] [] = Unit
AreValuesOf [] (e ∷ m) = ⊥
AreValuesOf (c ∷ cs) [] = ⊥
AreValuesOf (c ∷ cs) ((k, v) ∷ m) = (k ≡ c.name) × (suits c v ≡ true) × AreValuesOf cs m

null_value-suits : (c : ColumnSchema) → suits c (null_value c) ≡ true
unfolding suits null_value
null_value-suits c = ground arith

abbrev IsTyped : ColumnType → SqlValue → SqlValue → Type 0
IsTyped k absent v = (absent ≡ v) ⊎ ((is_null v ≡ false) × (has_type k v ≡ true))

sanitize_number-IsTyped :
    (absent : SqlValue) (n : JsNumber) (v : SqlValue)
    → sanitize_typed number_type absent (number n) ≡ ok v
    → IsTyped number_type absent v
sanitize_number-IsTyped absent (whole n) v h = ground arith
sanitize_number-IsTyped absent (negative n) v h = ground arith
sanitize_number-IsTyped absent (fraction n) v h = ground arith
sanitize_number-IsTyped absent (non_finite n) v h = inl (ok-injective h)

boolean_of_number-IsTyped :
    (absent : SqlValue) (n : JsNumber) → IsTyped boolean_type absent (boolean_of_number absent n)
boolean_of_number-IsTyped absent (whole n) = ground arith
boolean_of_number-IsTyped absent (negative n) = inl refl
boolean_of_number-IsTyped absent (fraction n) = inl refl
boolean_of_number-IsTyped absent (non_finite n) = inl refl

sanitize_typed-IsTyped :
    (k : ColumnType) (absent : SqlValue) (value : JsValue) (v : SqlValue)
    → sanitize_typed k absent value ≡ ok v
    → IsTyped k absent v
sanitize_typed-IsTyped string_type absent (string s) v h =
    subst (IsTyped string_type absent) (ok-injective h) (inr (refl, refl))
sanitize_typed-IsTyped number_type absent (number n) v h = sanitize_number-IsTyped absent n v h
sanitize_typed-IsTyped boolean_type absent (boolean b) v h =
    subst (IsTyped boolean_type absent) (ok-injective h) (inr (refl, refl))
sanitize_typed-IsTyped boolean_type absent (number n) v h =
    subst (IsTyped boolean_type absent) (ok-injective h) (boolean_of_number-IsTyped absent n)
sanitize_typed-IsTyped blob_type absent (bytes bs) v h =
    subst (IsTyped blob_type absent) (ok-injective h) (inr (refl, refl))
sanitize_typed-IsTyped k absent value v h = inl (ok-injective h)

sanitize_value-suits :
    (value : JsValue) (c : ColumnSchema) (v : SqlValue)
    → sanitize_value value c ≡ ok v
    → suits c v ≡ true
unfolding suits sanitize_value
sanitize_value-suits value c v h = elim (sanitize_typed-IsTyped c.kind (null_value c) value v h) [
  | inl e ↦ subst (λ w. suits c w ≡ true) e (null_value-suits c)
  | inr (p, q) ↦ ap (λ b. if b then c.is_optional else has_type c.kind v) p ∙ q
]

-- the names of the columns to come are free
abbrev are_free : List ColumnSchema → Map SqlValue → Bool
are_free cs m = all (λ c. not (has c.name m)) cs

are_free-set :
    (k : String) (v : SqlValue) (cs : List ColumnSchema) (m : Map SqlValue)
    → are_free cs m ≡ true
    → member k (map (λ c. c.name) cs) ≡ false
    → are_free cs (set k v m) ≡ true
unfolding member
are_free-set k v [] m h n = refl
are_free-set k v (c ∷ cs) m h n =
    ground (arith, are_free-set k v cs m, has-set k c.name v m, eq_iff k c.name, eq_iff c.name k)

sanitize_columns-AreValuesOf :
    (dirty : DirtyRaw) (cs : List ColumnSchema) (m m' : Map SqlValue)
    → are_distinct (map (λ c. c.name) cs) ≡ true
    → are_free cs m ≡ true
    → sanitize_columns dirty cs m ≡ ok m'
    → (vs : Map SqlValue) × (m' ≡ m ++ vs) × AreValuesOf cs vs
unfolding sanitize_columns are_distinct
sanitize_columns-AreValuesOf dirty [] m m' d f h =
    ([], sym (ok-injective h) ∙ sym (append-nil m), tt)
sanitize_columns-AreValuesOf dirty (c ∷ cs) m m' d f h =
    let (v, made, h') = >>=-eq-ok (sanitize_value (field c.name dirty) c) _ h in
    let apart : member c.name (map (λ c. c.name) cs) ≡ false = ground arith in
    let distinct : are_distinct (map (λ c. c.name) cs) ≡ true = ground arith in
    let free : has c.name m ≡ false = ground arith in
    let later : are_free cs m ≡ true = and_right (not (has c.name m)) (are_free cs m) f in
    let (vs, e, good) =
      sanitize_columns-AreValuesOf dirty cs (set c.name v m) m' distinct
        (are_free-set c.name v cs m later apart) h' in
    (
      (c.name, v) ∷ vs,
      e ∙ ap (λ z. z ++ vs) (set-new c.name v m free) ∙ append_assoc m ((c.name, v) ∷ []) vs,
      (refl, sanitize_value-suits (field c.name dirty) c v made, good),
    )

nothing_taken : (cs : List ColumnSchema) → are_free cs [] ≡ true
unfolding get
nothing_taken [] = refl
nothing_taken (c ∷ cs) = nothing_taken cs

id_or-nonempty :
    (fresh : String) (value : JsValue) → (fresh == "") ≡ false → (id_or fresh value == "") ≡ false
id_or-nonempty fresh (string s) h = ground (arith, eq_iff s "")
id_or-nonempty fresh value h = h

-- For a table that `buildTableSchema` built, a record that `sanitizedRaw` returns has exactly the
-- columns of the table, in order, each with a value that suits its column: null only where the
-- column is optional, otherwise a value of the column's type, and no integer outside the safe
-- range. Its id is not empty if the fresh id is not.
pub sanitized_raw-AreValuesOf :
    (fresh name : String) (cs : List ColumnSchema) (local_only : Bool) (t : TableSchema)
    (dirty : DirtyRaw) (raw : RawRecord)
    → build_table_schema name cs local_only ≡ ok t
    → (fresh == "") ≡ false
    → sanitized_raw fresh dirty t ≡ ok raw
    → AreValuesOf cs raw.columns × ((raw.id == "") ≡ false)
unfolding sanitized_raw
sanitized_raw-AreValuesOf fresh name cs local_only t dirty raw built f h =
    let (_, _, _, distinct, shape) = (build_table_schema_iff name cs local_only t).0 built in
    let (columns, made, e) = >>=-eq-ok (sanitize_columns dirty t.column_array []) _ h in
    let (vs, same, good) =
      sanitize_columns-AreValuesOf dirty cs [] columns distinct (nothing_taken cs)
        (ap (λ t. sanitize_columns dirty t.column_array []) (sym shape) ∙ made) in
    (
      subst (AreValuesOf cs) (sym same ∙ ap (λ r. r.columns) (ok-injective e)) good,
      ap (λ r. r.id == "") (sym (ok-injective e)) ∙ id_or-nonempty fresh (field "id" dirty) f,
    )
