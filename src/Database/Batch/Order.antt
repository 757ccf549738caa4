-- ===== src/Database/Batch/Order.antt =====
-- The statements run the operations in order, and an unknown table stops the batch.
use remelon_db.Prelude.{
  map_snoc, append_assoc, append_nil, String, ◌≡◌, ◌↔◌, refl, sym, ap, ◌∙◌, Bool, true, false, not,
  ◌&&◌, Option, none, some, List, [], ◌∷◌, ◌++◌, ◌==◌, eq_iff, arith, map, is_empty, some-injective,
  is_some, if◌then◌else◌, if_cases,
}
use remelon_db.Prelude.Map.{get}
use remelon_db.Prelude.Set.{member}
use remelon_db.Schema.Names.{inherited}
use remelon_db.Prelude.Result.{Result, ok, err, traverse, ◌>>=◌, >>=-eq-ok, ok-injective}
use remelon_db.Schema.Tables.{TableSchema, AppSchema}
use remelon_db.RawRecord.{SqlValue}
use remelon_db.Database.Batch.{
  OperationType, create, update, mark_as_deleted, destroy_permanently, BatchError, unknown_table,
  no_columns, encode_inherited, BatchOperation, BatchStatement, encode_operation, push_run,
  encode_in, encode_into, encode_batch,
}

-- the runs of the statements, one after the other
unfoldable pub runs_of : List BatchStatement → List (String × List SqlValue)
runs_of [] = []
runs_of (s ∷ statements) = map (λ args. (s.0, args)) s.1 ++ runs_of statements

-- neighbours have different texts, and each statement has a run
unfoldable pub is_grouped : List BatchStatement → Bool
is_grouped [] = true
is_grouped (s ∷ []) = not (is_empty s.1)
is_grouped (s ∷ next ∷ statements) =
    not (is_empty s.1) && (not (s.0 == next.0) && is_grouped (next ∷ statements))

-- the text of the first statement
unfoldable pub starts_as : String → List BatchStatement → Bool
starts_as t [] = false
starts_as t (s ∷ statements) = t == s.0

grouped_nil : is_grouped [] ≡ true
unfolding is_grouped
grouped_nil = refl

-- an operation that reads the columns of its table
abbrev pub reads_columns : OperationType → Bool
reads_columns create = true
reads_columns update = true
reads_columns mark_as_deleted = false
reads_columns destroy_permanently = false

-- Why an operation has no statement: its table is not in the schema, and either no object has a member
-- of that name, or the operation reads the columns of that member.
unfoldable pub failure_of : AppSchema → BatchOperation → Option BatchError
unfolding get
failure_of schema o =
    if is_some (get o.table schema.tables)
    then none
    else if not (member o.table inherited)
    then some (unknown_table o.table)
    else if reads_columns o.type
    then some no_columns
    else none

unfoldable pub first_failure : AppSchema → List BatchOperation → Option BatchError
unfolding failure_of
first_failure schema [] = none
first_failure schema (o ∷ operations) = elim (failure_of schema o) [
  | none ↦ first_failure schema operations
  | some e ↦ some e
]

runs_of-push_run :
    (statements : List BatchStatement) (sql : String) (args : List SqlValue)
    → runs_of (push_run statements sql args) ≡ runs_of statements ++ ((sql, args) ∷ [])
unfolding runs_of push_run
runs_of-push_run [] sql args = refl
runs_of-push_run ((last, runs) ∷ []) sql args =
    if_cases
      (λ (st : List BatchStatement).
        runs_of st ≡ (map (λ a. (last, a)) runs ++ []) ++ ((sql, args) ∷ []))
      (last == sql)
      (λ same.
        append_nil (map (λ a. (last, a)) (runs ++ (args ∷ [])))
        ∙ map_snoc (λ a. (last, a)) runs args
        ∙ ap (λ t. map (λ a. (last, a)) runs ++ ((t, args) ∷ [])) ((eq_iff last sql).0 same)
        ∙ ap (λ l. l ++ ((sql, args) ∷ [])) (sym (append_nil (map (λ a. (last, a)) runs))))
      (λ differs. ap (λ l. l ++ ((sql, args) ∷ [])) (sym (append_nil (map (λ a. (last, a)) runs))))
runs_of-push_run (first ∷ next ∷ statements) sql args =
    ap (λ l. map (λ a. (first.0, a)) first.1 ++ l) (runs_of-push_run (next ∷ statements) sql args)
    ∙ sym (
        append_assoc (map (λ a. (first.0, a)) first.1) (runs_of (next ∷ statements))
          ((sql, args) ∷ []))

-- the first statement keeps its text, and is not emptied
is_empty-snoc {ℓ} : {A : Type ℓ} (xs : List A) (x : A) → is_empty (xs ++ (x ∷ [])) ≡ false
is_empty-snoc [] x = refl
is_empty-snoc (y ∷ xs) x = refl

-- grouped statements behind a statement of another text
is_grouped-cons :
    (s : BatchStatement) (next : BatchStatement) (statements pushed : List BatchStatement)
    → ((t : String) → starts_as t pushed ≡ (t == next.0))
    → is_grouped (s ∷ next ∷ statements) ≡ true
    → is_grouped pushed ≡ true
    → is_grouped (s ∷ pushed) ≡ true
unfolding is_grouped starts_as
is_grouped-cons s next statements [] same h k = ground (arith, h)
is_grouped-cons s next statements (p ∷ pushed) same h k = ground (arith, h, k, same s.0)

starts_as-push_run :
    (t : String) (next : BatchStatement) (statements : List BatchStatement) (sql : String)
    (args : List SqlValue)
    → starts_as t (push_run (next ∷ statements) sql args) ≡ (t == next.0)
unfolding starts_as push_run
starts_as-push_run t next [] sql args =
    if_cases (λ (st : List BatchStatement). starts_as t st ≡ (t == next.0)) (next.0 == sql)
      (λ same. refl) (λ differs. refl)
starts_as-push_run t next (other ∷ statements) sql args = refl

is_grouped-push_run :
    (statements : List BatchStatement) (sql : String) (args : List SqlValue)
    → is_grouped statements ≡ true
    → is_grouped (push_run statements sql args) ≡ true
unfolding is_grouped push_run
is_grouped-push_run [] sql args h = refl
is_grouped-push_run ((last, runs) ∷ []) sql args h =
    if_cases (λ (st : List BatchStatement). is_grouped st ≡ true) (last == sql)
      (λ same. ap not (is_empty-snoc runs args)) (λ differs. ground (arith, h, differs))
is_grouped-push_run (first ∷ next ∷ statements) sql args h =
    is_grouped-cons first next statements (push_run (next ∷ statements) sql args)
      (λ t. starts_as-push_run t next statements sql args) h
      (is_grouped-push_run (next ∷ statements) sql args (ground (arith, h)))

-- what the statements that are made so far, and those to come, run
IsEncoded : AppSchema → List BatchOperation → List BatchStatement → List BatchStatement → Type 0
IsEncoded schema operations before statements =
    (encoded : List (String × List SqlValue)) × (traverse (encode_in schema) operations
      ≡ ok encoded)
    × (runs_of statements ≡ runs_of before ++ encoded)
    × (is_grouped statements ≡ true)

encode_into-lem :
    (schema : AppSchema) (operations : List BatchOperation)
    (before statements : List BatchStatement)
    → encode_into schema operations before ≡ ok statements
    → is_grouped before ≡ true
    → IsEncoded schema operations before statements
unfolding encode_into traverse IsEncoded
encode_into-lem schema [] before statements went grouped =
    let same = ok-injective went in
    (
      [],
      refl,
      ap runs_of (sym same) ∙ sym (append_nil (runs_of before)),
      ap is_grouped (sym same) ∙ grouped,
    )
encode_into-lem schema (o ∷ operations) before statements went grouped =
    let (first, made, rest) = >>=-eq-ok (encode_in schema o) _ went in
    let (encoded, all_made, runs, well) =
      encode_into-lem schema operations (push_run before first.0 first.1) statements rest
        (is_grouped-push_run before first.0 first.1 grouped) in
    (
      first ∷ encoded,
      rw made (rw all_made refl),
      runs
          ∙ ap (λ l. l ++ encoded) (runs_of-push_run before first.0 first.1)
          ∙ append_assoc (runs_of before) (first ∷ []) encoded,
      well,
    )

-- Where `encodeBatch` returns, the statements run what each operation is encoded as, in the order of
-- the operations; each statement has a run, and neighbours have different texts.
pub encode_batch_lem :
    (schema : AppSchema) (operations : List BatchOperation) (statements : List BatchStatement)
    → encode_batch operations schema ≡ ok statements
    → (traverse (encode_in schema) operations ≡ ok (runs_of statements))
      × (is_grouped statements ≡ true)
unfolding IsEncoded runs_of
encode_batch_lem schema operations statements went =
    let (encoded, made, runs, well) =
      encode_into-lem schema operations [] statements went grouped_nil in
    (made ∙ ap ok (sym runs), well)

-- the encoding fails with this error, or does not fail
abbrev FailsAs {ℓ} : {A : Type ℓ} → Result BatchError A → Option BatchError → Type 0
FailsAs (err x) e = e ≡ some x
FailsAs (ok y) e = e ≡ none

encode_in-FailsAs :
    (schema : AppSchema) (o : BatchOperation) → FailsAs (encode_in schema o) (failure_of schema o)
unfolding encode_in failure_of encode_inherited
encode_in-FailsAs schema o = at (get o.table schema.tables) (member o.table inherited) o.type
  where
    at :
        (found : Option TableSchema) (known : Bool) (type : OperationType)
        → FailsAs
            (elim found [
              | none ↦
                  if known then encode_inherited type o.raw o.table else err (unknown_table o.table)
              | some table ↦ ok (encode_operation o.type o.raw table)
            ])
            (if is_some found
              then none
              else if not known
              then some (unknown_table o.table)
              else if reads_columns type
              then some no_columns
              else none)
    at none true create = refl
    at none true update = refl
    at none true mark_as_deleted = refl
    at none true destroy_permanently = refl
    at none false type = refl
    at (some table) known type = refl

encode_into-FailsAs :
    (schema : AppSchema) (operations : List BatchOperation) (before : List BatchStatement)
    → FailsAs (encode_into schema operations before) (first_failure schema operations)
unfolding encode_into first_failure
encode_into-FailsAs schema [] before = refl
encode_into-FailsAs schema (o ∷ operations) before =
    at (encode_in schema o) (failure_of schema o) (encode_in-FailsAs schema o)
      (λ encoded. encode_into-FailsAs schema operations (push_run before encoded.0 encoded.1))
  where
    at :
        (r : Result BatchError (String × List SqlValue)) (e : Option BatchError)
        → FailsAs r e
        → ((encoded : String × List SqlValue)
            → FailsAs
                (encode_into schema operations (push_run before encoded.0 encoded.1))
                (first_failure schema operations))
        → FailsAs
            (r >>= λ encoded. encode_into schema operations (push_run before encoded.0 encoded.1))
            (elim e [ none ↦ first_failure schema operations | some x ↦ some x ])
    at (err x) none h rest = cc
    at (err x) (some y) h rest = h
    at (ok encoded) none h rest = rest encoded
    at (ok encoded) (some y) h rest = cc

FailsAs-iff :
    {A : Type 0} (r : Result BatchError A) (e : Option BatchError) (x : BatchError)
    → FailsAs r e
    → (r ≡ err x) ↔ (e ≡ some x)
FailsAs-iff (err y) e x h =
    (λ k. h ∙ ap some (err-injective k), λ k. ap err (some-injective (sym h ∙ k)))
  where
    err-injective :
        {A : Type 0} {a b : BatchError} → ◌≡◌ {A = Result BatchError A} (err a) (err b) → a ≡ b
    err-injective k = cc
FailsAs-iff (ok y) e x h = (λ k. cc, λ k. cc)

-- `encodeBatch` throws exactly when an operation fails, with the error of the first that does. An
-- operation on a table that the schema does not have fails as unknown, unless every object inherits a
-- member of that name: then a create or an update fails for the lack of columns, and the rest do not.
pub encode_batch_fails_iff :
    (schema : AppSchema) (operations : List BatchOperation) (error : BatchError)
    → (encode_batch operations schema ≡ err error) ↔ (first_failure schema operations ≡ some error)
encode_batch_fails_iff schema operations error =
    FailsAs-iff (encode_batch operations schema) (first_failure schema operations) error
      (encode_into-FailsAs schema operations [])
