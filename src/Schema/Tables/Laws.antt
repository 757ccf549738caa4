-- ===== src/Schema/Tables/Laws.antt =====
-- What `buildTableSchema` and `appSchema` accept, and what they build.
use remelon_db.Prelude.{
  String, ◌≡◌, refl, sym, ap, ◌∙◌, ◌↔◌, Bool, true, false, not, ◌&&◌, ◌||◌, List, [], ◌∷◌, ◌++◌,
  map, all, ◌==◌, eq_iff, arith,
}
use mathlib.Core.List.{append-nil, append_assoc}
use remelon_db.Prelude.Map.{Map, get, set, has, has-set, set-new}
use remelon_db.Prelude.Set.{member}
use remelon_db.Prelude.Result.{ok, guard, ◌>>◌, >>-eq-ok, >>=-eq-ok, guard-eq-ok, ok-injective}
use remelon_db.Schema.{
  SchemaError, invalid_name, reserved_column, blob_index, bad_timestamp, duplicate_column,
  reserved_table,
}
use remelon_db.Schema.Names.{is_identifier, is_reserved, inherited, ensure_name}
use remelon_db.Schema.Tables.{
  ColumnSchema, TableSchema, is_blob, is_misused_timestamp, validate_column_schema, is_taken,
  add_columns_to, is_reserved_table, build_table_schema,
}

-- The first element occurs in no later place, and so on.
unfoldable pub are_distinct : List String → Bool
are_distinct [] = true
are_distinct (x ∷ xs) = not (member x xs) && are_distinct xs

-- A column whose name is an identifier that is not reserved, that is not an indexed blob, and that
-- is a non-optional number if it has the name of a timestamp.
unfoldable pub is_column : ColumnSchema → Bool
is_column c =
    is_identifier c.name
    && not (is_reserved c.name)
    && not (is_blob c.kind && c.is_indexed)
    && not (is_misused_timestamp c)

four_guards :
    (a b c d : Bool) (e f g h : SchemaError)
    → ((guard a e >> (guard b f >> (guard c g >> guard d h))) ≡ ok tt) ↔ ((a && b && c && d) ≡ true)
four_guards true true true d e f g h = ground arith
four_guards true true false d e f g h = ground arith
four_guards true false c d e f g h = ground arith
four_guards false b c d e f g h = ground arith

validate_column_schema_lem :
    (c : ColumnSchema) → (validate_column_schema c ≡ ok tt) ↔ (is_column c ≡ true)
unfolding validate_column_schema ensure_name is_column
validate_column_schema_lem c =
    four_guards (is_identifier c.name) (not (is_reserved c.name))
      (not (is_blob c.kind && c.is_indexed)) (not (is_misused_timestamp c)) invalid_name
      reserved_column blob_index bad_timestamp

entry : ColumnSchema → String × ColumnSchema
entry c = (c.name, c)

-- What the loop over the columns asks of the columns to come.
abbrev fits : Map ColumnSchema → List ColumnSchema → Bool
fits m cs =
    all (λ c. is_column c && not (is_taken c.name m)) cs && are_distinct (map (λ c. c.name) cs)

is_taken-set {ℓ} :
    {V : Type ℓ} (k j : String) (v : V) (m : Map V)
    → is_taken j (set k v m) ≡ ((k == j) || is_taken j m)
unfolding is_taken
is_taken-set k j v m = ground (arith, has-set k j v m)

all-is_taken :
    (c : ColumnSchema) (m : Map ColumnSchema) (cs : List ColumnSchema)
    → all (λ d. is_column d && not (is_taken d.name (set c.name c m))) cs ≡ (
        all (λ d. is_column d && not (is_taken d.name m)) cs
        && not (member c.name (map (λ d. d.name) cs)))
unfolding member
all-is_taken c m [] = refl
all-is_taken c m (d ∷ cs) = ground (
  arith,
  all-is_taken c m cs,
  is_taken-set c.name d.name c m,
  eq_iff c.name d.name,
  eq_iff d.name c.name,
)

fits-cons :
    (m : Map ColumnSchema) (c : ColumnSchema) (cs : List ColumnSchema)
    → fits m (c ∷ cs) ≡ (is_column c && (not (is_taken c.name m) && fits (set c.name c m) cs))
unfolding are_distinct
fits-cons m c cs = ground (arith, all-is_taken c m cs)

fits-has :
    (m : Map ColumnSchema) (c : ColumnSchema) → is_taken c.name m ≡ false → has c.name m ≡ false
unfolding is_taken
fits-has m c h = ground arith

-- The loop over the columns succeeds when they fit, and only then; it files each under its name.
add_columns_to_ok :
    (cs : List ColumnSchema) (m : Map ColumnSchema)
    → fits m cs ≡ true
    → add_columns_to cs m ≡ ok (m ++ map entry cs)
unfolding add_columns_to entry
add_columns_to_ok [] m h = ap ok (sym (append-nil m))
add_columns_to_ok (c ∷ cs) m h =
    let parts : (is_column c && (not (is_taken c.name m) && fits (set c.name c m) cs)) ≡ true =
      sym (fits-cons m c cs) ∙ h in
    let valid : is_column c ≡ true = ground arith in
    let free : is_taken c.name m ≡ false = ground arith in
    let rest : fits (set c.name c m) cs ≡ true = ground arith in
    rw
      (
        (validate_column_schema_lem c).1 valid,
        free,
        add_columns_to_ok cs (set c.name c m) rest,
        set-new c.name c m (fits-has m c free),
        append_assoc m (entry c ∷ []) (map entry cs),
      )
      refl

add_columns_to-fits :
    (cs : List ColumnSchema) (m m' : Map ColumnSchema)
    → add_columns_to cs m ≡ ok m'
    → fits m cs ≡ true
unfolding add_columns_to are_distinct
add_columns_to-fits [] m m' h = refl
add_columns_to-fits (c ∷ cs) m m' h =
    let (v, g) = >>-eq-ok (validate_column_schema c) _ h in
    let (t, k) = >>-eq-ok (guard (not (is_taken c.name m)) duplicate_column) _ g in
    fits-cons m c cs
    ∙ ground (
      arith,
      (validate_column_schema_lem c).0 v,
      guard-eq-ok _ _ t,
      add_columns_to-fits cs (set c.name c m) m' k,
    )

-- the table of these columns, each under its name
abbrev pub table_of : String → List ColumnSchema → Bool → TableSchema
table_of name cs local_only = record {
  name = name;
  columns = map (λ c. (c.name, c)) cs;
  column_array = cs;
  local_only = local_only;
}

abbrev pub IsTable : String → List ColumnSchema → Bool → TableSchema → Type 0
IsTable name cs local_only t =
    (is_identifier name ≡ true)
    × (is_reserved_table name ≡ false)
    × (all (λ c. is_column c && not (member c.name inherited)) cs ≡ true)
    × (are_distinct (map (λ c. c.name) cs) ≡ true)
    × (t ≡ table_of name cs local_only)

-- `buildTableSchema` succeeds exactly when the table's name is an identifier that is not reserved,
-- every column is valid, no column is called like a member that every JavaScript object inherits,
-- and the names of the columns are distinct; the table it builds holds each column under its name,
-- in the order of the declaration.
pub build_table_schema_iff :
    (name : String) (cs : List ColumnSchema) (local_only : Bool) (t : TableSchema)
    → (build_table_schema name cs local_only ≡ ok t) ↔ IsTable name cs local_only t
unfolding build_table_schema ensure_name is_taken get entry
build_table_schema_iff name cs local_only t = (forth, back)
  where
    forth : build_table_schema name cs local_only ≡ ok t → IsTable name cs local_only t
    forth h =
        let (a, h₁) = >>-eq-ok (guard (is_identifier name) invalid_name) _ h in
        let (b, h₂) = >>-eq-ok (guard (not (is_reserved_table name)) reserved_table) _ h₁ in
        let (columns, made, h₃) = >>=-eq-ok (add_columns_to cs []) _ h₂ in
        let good : fits [] cs ≡ true = add_columns_to-fits cs [] columns made in
        let same : columns ≡ map entry cs =
          ok-injective (sym made ∙ add_columns_to_ok cs [] good) in
        (
          guard-eq-ok _ _ a,
          ground (arith, guard-eq-ok _ _ b),
          ground arith,
          ground arith,
          sym (ok-injective h₃)
              ∙ ap (λ m. record (table_of name cs local_only) { columns = m }) same,
        )

    back : IsTable name cs local_only t → build_table_schema name cs local_only ≡ ok t
    back (a, b, c, d, e) =
        let good : fits [] cs ≡ true = ground arith in
        rw (a, b, add_columns_to_ok cs [] good, e) refl
