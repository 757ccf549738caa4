-- ===== src/Sync/Apply/Rows.antt =====
-- The rows of a pulled change set: each operation names the id of its row, and a record that is
-- deleted locally is left alone.
use remelon_db.Prelude.{
  String, ◌≡◌, refl, sym, ap, ◌∙◌, subst, Bool, true, false, not, ◌&&◌, ◌||◌, Option, none, some,
  List, [], ◌∷◌, ◌++◌, ◌==◌, eq_iff, arith, any, All, if◌then◌else◌, or_else, is_some,
}
use remelon_db.Prelude.Map.{Map, get, set, has, get-set}
use remelon_db.Prelude.Result.{Result, ok, err, ◌>>=◌, >>=-eq-ok, >>-eq-ok, ok-injective, err-ne-ok}
use remelon_db.Wire.{JsValue, undefined, string, DirtyRaw, field}
use remelon_db.Schema.Tables.{TableSchema}
use remelon_db.RawRecord.{RawRecord, sanitized_raw, sanitize_columns, id_or, is_deleted}
use remelon_db.Sync.{SyncError, no_string_id, Operation, update, operation_id, are_records_equal}
use remelon_db.Sync.Resolve.{lift, lift-eq-ok, resolve_conflict, resolve_conflict_lem}
use remelon_db.Sync.Apply.{
  ApplyOptions, remote_id, as_synced, create_as_synced, require_full_record, is_absorbing,
  customized, update_resolved, apply_row, apply_rows,
}

-- Every operation of the list is about this record.
abbrev pub AreAbout : String → List Operation → Type 0
AreAbout id ops = All (λ o. operation_id o ≡ id) ops

remote_id-field :
    (dirty : DirtyRaw) (id : String)
    → remote_id dirty ≡ ok id
    → (field "id" dirty ≡ string id) × ((id == "") ≡ false)
unfolding remote_id
remote_id-field dirty id h = at (field "id" dirty) h
  where
    at :
        (v : JsValue)
        → ◌≡◌ {A = Result SyncError String}
            (elim v [
              | string id ↦ if id == "" then err no_string_id else ok id
              | _ ↦ err no_string_id
            ])
            (ok id)
        → (v ≡ string id) × ((id == "") ≡ false)
    at (string s) e = ground arith
    at v e = elim (err-ne-ok e) [ ]

create_as_synced-id :
    (fresh : String) (t : TableSchema) (dirty : DirtyRaw) (id : String) (o : Operation)
    → remote_id dirty ≡ ok id
    → create_as_synced fresh t dirty ≡ ok o
    → operation_id o ≡ id
unfolding create_as_synced sanitized_raw
create_as_synced-id fresh t dirty id o h e =
    let (stated, nonempty) = remote_id-field dirty id h in
    let (raw, lifted, e₁) = >>=-eq-ok (lift (sanitized_raw fresh (as_synced dirty) t)) _ e in
    let (columns, _, e₂) =
      >>=-eq-ok (sanitize_columns (as_synced dirty) t.column_array []) _
        (lift-eq-ok (sanitized_raw fresh (as_synced dirty) t) lifted) in
    sym (ap operation_id (ok-injective e₁))
    ∙ sym (ap (λ r. r.id) (ok-injective e₂))
    ∙ ap (id_or fresh) (as_synced-id dirty ∙ stated)
    ∙ ap (λ b. if b then fresh else id) nonempty
  where
    as_synced-id : (dirty : DirtyRaw) → field "id" (as_synced dirty) ≡ field "id" dirty
    as_synced-id dirty =
        ap (λ o. or_else o undefined)
          (get-set "_changed" "id" (string "") (set "_status" (string "synced") dirty)
            ∙ get-set "_status" "id" (string "synced") dirty)

update_resolved-AreAbout :
    (options : ApplyOptions) (fresh table : String) (t : TableSchema) (local : RawRecord)
    (dirty : DirtyRaw) (ops : List Operation)
    → options.conflict_resolver ≡ none
    → (local.id == "") ≡ false
    → update_resolved options fresh table t local dirty ≡ ok ops
    → AreAbout local.id ops
unfolding update_resolved
update_resolved-AreAbout options fresh table t local dirty ops plain h e =
    let (base, made, e') = >>=-eq-ok (resolve_conflict fresh local dirty t) _ e in
    let ((same, _, _), _, _, _) = resolve_conflict_lem fresh local dirty t base h made in
    let chosen : customized options table local dirty base ≡ base =
      ap (λ r. chosen_by r table local dirty base) plain in
    subst (AreAbout local.id) (ok-injective e') (
      at
        (is_absorbing local.status
          && are_records_equal local (customized options table local dirty base))
        (customized options table local dirty base) (ap (λ r. r.id) chosen ∙ same))
  where
    at :
        (b : Bool) (r : RawRecord)
        → r.id ≡ local.id
        → AreAbout local.id (if b then [] else update r ∷ [])
    at true r k = tt
    at false r k = (k, tt)

    chosen_by :
        Option (String → RawRecord → DirtyRaw → RawRecord → RawRecord)
        → String
        → RawRecord
        → DirtyRaw
        → RawRecord
        → RawRecord
    chosen_by o table local remote resolved = elim o [
      | none ↦ resolved
      | some resolver ↦ resolver table local remote resolved
    ]

-- The rows of a query are filed under their ids.
abbrev pub AreFiled : Map RawRecord → Type 0
AreFiled local = (id : String) (raw : RawRecord) → get id local ≡ some raw → raw.id ≡ id

-- The rows of a change set are filed under the ids that they state.
abbrev pub AreStated : Map DirtyRaw → Type 0
AreStated rows = All (λ e. remote_id e.1 ≡ ok e.0) rows

-- a record that is deleted locally
abbrev pub is_buried : Option RawRecord → Bool
is_buried none = false
is_buried (some raw) = is_deleted raw.status

-- The operations for one row are about its id, and there are none over a local deletion.
apply_row-AreAbout :
    (options : ApplyOptions) (fresh table : String) (t : TableSchema) (local : Map RawRecord)
    (id : String) (dirty : DirtyRaw) (ops : List Operation)
    → options.conflict_resolver ≡ none
    → AreFiled local
    → remote_id dirty ≡ ok id
    → apply_row options fresh table t local id dirty ≡ ok ops
    → AreAbout id ops × (is_buried (get id local) ≡ true → ops ≡ [])
unfolding apply_row require_full_record
apply_row-AreAbout options fresh table t local id dirty ops plain filed h e =
    let (_, e') = >>-eq-ok (require_full_record t dirty) _ e in at (get id local) refl e'
  where
    branch : Option RawRecord → Result SyncError (List Operation)
    branch none = create_as_synced fresh t dirty >>= λ o. ok (o ∷ [])
    branch (some raw) =
        if is_deleted raw.status then ok [] else update_resolved options fresh table t raw dirty

    live :
        (raw : RawRecord) (b : Bool)
        → get id local ≡ some raw
        → (if b then ok [] else update_resolved options fresh table t raw dirty) ≡ ok ops
        → AreAbout id ops × (b ≡ true → ops ≡ [])
    live raw true k e = (subst (AreAbout id) (ok-injective e) tt, λ _. sym (ok-injective e))
    live raw false k e =
        let same = filed id raw k in
        let nonempty = ap (λ i. i == "") same ∙ (remote_id-field dirty id h).1 in
        (
          subst (λ i. AreAbout i ops) same
              (update_resolved-AreAbout options fresh table t raw dirty ops plain nonempty e),
          λ absurd. ground arith,
        )

    at :
        (o : Option RawRecord)
        → get id local ≡ o
        → branch o ≡ ok ops
        → AreAbout id ops × (is_buried o ≡ true → ops ≡ [])
    at none k e =
        let (o, made, e') = >>=-eq-ok (create_as_synced fresh t dirty) _ e in
        (
          subst (AreAbout id) (ok-injective e') (create_as_synced-id fresh t dirty id o h made, tt),
          λ absurd. ground arith,
        )
    at (some raw) k e = live raw (is_deleted raw.status) k e

any-append :
    (p : Operation → Bool) (xs ys : List Operation) → any p (xs ++ ys) ≡ (any p xs || any p ys)
any-append p [] ys = refl
any-append p (x ∷ xs) ys = ground (arith, any-append p xs ys)

-- whether an operation is about the record
abbrev pub names : String → List Operation → Bool
names id ops = any (λ o. operation_id o == id) ops

AreAbout-names :
    (k id : String) (ops : List Operation)
    → AreAbout k ops
    → (k == id) ≡ false
    → names id ops ≡ false
AreAbout-names k id [] h n = refl
AreAbout-names k id (o ∷ ops) (e, h) n =
    ap (λ i. (i == id) || names id ops) e ∙ ground (arith, AreAbout-names k id ops h n)

-- The operations for a row are about no other record, and about none that is deleted locally.
quiet :
    (local : Map RawRecord) (k id : String) (ops : List Operation)
    → AreAbout k ops
    → (is_buried (get k local) ≡ true → ops ≡ [])
    → (names id ops && (not (k == id) || is_buried (get id local))) ≡ false
quiet local k id ops about buried = at (k == id) refl (is_buried (get k local)) refl
  where
    at :
        (same : Bool)
        → (k == id) ≡ same
        → (dead : Bool) → is_buried (get k local) ≡ dead
        → (names id ops && (not same || is_buried (get id local))) ≡ false
    at false n dead d = ap (λ b. b && true) (AreAbout-names k id ops about n)
    at true e true d = ap (λ z. names id z && is_buried (get id local)) (buried d)
    at true e false d =
        let alive : is_buried (get id local) ≡ false =
          subst (λ i. is_buried (get i local) ≡ false) ((eq_iff k id).0 e) d in
        ground arith

-- Without a conflict resolver, for rows filed under the ids that they state and local records filed
-- under theirs: the operations for the created or updated rows of a change set are about ids that
-- these rows name, and none is about a record that is deleted locally. So a created row over a local
-- tombstone does nothing, in a normal pull as in a resync, where the comment at the head of
-- applyRemote.ts and the table in docs/codebase-guide.md have a normal pull destroy the tombstone and
-- create the record afresh.
pub apply_rows_lem :
    (options : ApplyOptions) (fresh table : String) (t : TableSchema) (local : Map RawRecord)
    (rows : Map DirtyRaw) (ops : List Operation) (id : String)
    → options.conflict_resolver ≡ none
    → AreFiled local
    → AreStated rows
    → apply_rows options fresh table t local rows ≡ ok ops
    → (names id ops && (not (has id rows) || is_buried (get id local))) ≡ false
unfolding apply_rows get
apply_rows_lem options fresh table t local [] ops id plain filed stated e =
    ap (λ z. names id z && (not (has {V = DirtyRaw} id []) || is_buried (get id local)))
      (sym (ok-injective e))
apply_rows_lem options fresh table t local ((k, dirty) ∷ rows) ops id plain filed (h, stated) e =
    let (first, made, e') = >>=-eq-ok (apply_row options fresh table t local k dirty) _ e in
    let (rest, later, e'') = >>=-eq-ok (apply_rows options fresh table t local rows) _ e' in
    let (about, buried) =
      apply_row-AreAbout options fresh table t local k dirty first plain filed h made in
    let ih = apply_rows_lem options fresh table t local rows rest id plain filed stated later in
    ap (λ z. names id z && (not (has id ((k, dirty) ∷ rows)) || is_buried (get id local)))
      (sym (ok-injective e''))
    ∙ ap (λ z. z && (not (has id ((k, dirty) ∷ rows)) || is_buried (get id local)))
        (any-append (λ o. operation_id o == id) first rest)
    ∙ both (k == id) (names id first) (names id rest) (is_some (get id rows))
        (is_buried (get id local)) refl (quiet local k id first about buried) ih
  where
    both :
        (same a b known dead : Bool)
        → is_some (get id rows) ≡ known
        → (a && (not same || dead)) ≡ false
        → (b && (not known || dead)) ≡ false
        → ((a || b) && (not (is_some (if same then some dirty else get id rows)) || dead)) ≡ false
    both same a b known dead e h k = ground arith
