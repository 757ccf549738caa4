-- ===== src/Sync/Resolve.antt =====
-- applyRemote.ts: `resolveConflict`, and what it keeps of each side.
use remelon_db.Prelude.{
  String, ◌≡◌, refl, sym, ap, ◌∙◌, false, some, List, [], ◌∷◌, ◌==◌, eq_iff, arith, or_else,
  if◌then◌else◌,
}
use remelon_db.Prelude.Map.{Map, get, set, get-set}
use remelon_db.Prelude.Set.{member}
use remelon_db.Prelude.Result.{Result, ok, err, ◌>>=◌, >>=-eq-ok, ok-injective, err-ne-ok}
use remelon_db.Wire.{undefined, string, DirtyRaw, field}
use remelon_db.Schema.Tables.{TableSchema}
use remelon_db.RawRecord.{
  SqlValue, SyncStatus, synced, created, updated, deleted, RawRecord, RawError, changed_names,
  status_of, id_or, text_or, sanitized_raw, sanitize_columns,
}
use remelon_db.Sync.{SyncError, unsafe_value, value_at}

abbrev pub status_text : SyncStatus → String
status_text synced = "synced"
status_text created = "created"
status_text updated = "updated"
status_text deleted = "deleted"

-- what `sanitizedRaw` throws, among the errors of the client
abbrev pub lift {ℓ} : {A : Type ℓ} → Result RawError A → Result SyncError A
lift (ok a) = ok a
lift (err e) = err unsafe_value

-- `{ ...remote, id, _status, _changed }`
abbrev pub with_fields : String → String → String → DirtyRaw → DirtyRaw
with_fields id status changed remote =
    set "_changed" (string changed) (set "_status" (string status) (set "id" (string id) remote))

-- the loop over the locally changed columns
unfoldable pub put_local : List String → RawRecord → Map SqlValue → Map SqlValue
put_local [] local columns = columns
put_local (name ∷ names) local columns =
    put_local names local (set name (value_at name local) columns)

abbrev overlay : RawRecord → RawRecord → RawRecord
overlay local base = record base {
  columns = put_local (changed_names local.changed) local base.columns;
}

-- Remote base, local values for locally changed columns on top; `fresh` is what `randomId` would
-- return for a record without an id.
unfoldable pub resolve_conflict :
    String → RawRecord → DirtyRaw → TableSchema → Result SyncError RawRecord
unfolding sanitized_raw changed_names put_local
resolve_conflict fresh local remote t =
    lift
      (sanitized_raw fresh (with_fields local.id (status_text local.status) local.changed remote) t)
    >>= λ resolved. ok (overlay local resolved)

get-put_local :
    (name : String) (names : List String) (local : RawRecord) (columns : Map SqlValue)
    → get name (put_local names local columns)
      ≡ (if member name names then some (value_at name local) else get name columns)
unfolding put_local member
get-put_local name [] local columns = refl
get-put_local name (other ∷ names) local columns = ground (
  arith,
  get-put_local name names local (set other (value_at other local) columns),
  get-set other name (value_at other local) columns,
  eq_iff other name,
)

pub lift-eq-ok : {A : Type 0} (r : Result RawError A) {a : A} → lift r ≡ ok a → r ≡ ok a
lift-eq-ok (ok b) h = ap ok (ok-injective h)
lift-eq-ok (err e) h = elim (err-ne-ok h) [ ]

with_fields-id :
    (id status changed : String) (remote : DirtyRaw)
    → field "id" (with_fields id status changed remote) ≡ string id
with_fields-id id status changed remote =
    let inner = set "id" (string id) remote in
    ap (λ o. or_else o undefined)
      (get-set "_changed" "id" (string changed) (set "_status" (string status) inner)
        ∙ get-set "_status" "id" (string status) inner
        ∙ get-set "id" "id" (string id) remote)

with_fields-status :
    (id status changed : String) (remote : DirtyRaw)
    → field "_status" (with_fields id status changed remote) ≡ string status
with_fields-status id status changed remote =
    let inner = set "id" (string id) remote in
    ap (λ o. or_else o undefined)
      (get-set "_changed" "_status" (string changed) (set "_status" (string status) inner)
        ∙ get-set "_status" "_status" (string status) inner)

with_fields-changed :
    (id status changed : String) (remote : DirtyRaw)
    → field "_changed" (with_fields id status changed remote) ≡ string changed
with_fields-changed id status changed remote =
    ap (λ o. or_else o undefined)
      (get-set "_changed" "_changed" (string changed)
        (set "_status" (string status) (set "id" (string id) remote)))

status_of-status_text : (s : SyncStatus) → status_of (string (status_text s)) ≡ s
status_of-status_text synced = refl
status_of-status_text created = refl
status_of-status_text updated = refl
status_of-status_text deleted = refl

-- the local id, status and names of changed columns are kept
abbrev pub KeepsMarks : RawRecord → RawRecord → Type 0
KeepsMarks local r = (r.id ≡ local.id) × (r.status ≡ local.status) × (r.changed ≡ local.changed)

-- A resolved record keeps the local id, status and `_changed` (the local id not being empty), and
-- each of its columns has the local value if it was changed locally, and the sanitized remote value
-- otherwise.
pub resolve_conflict_lem :
    (fresh : String) (local : RawRecord) (remote : DirtyRaw) (t : TableSchema) (r : RawRecord)
    → (local.id == "") ≡ false
    → resolve_conflict fresh local remote t ≡ ok r
    → KeepsMarks local r
      × (columns : Map SqlValue) × (sanitize_columns
            (with_fields local.id (status_text local.status) local.changed remote)
            t.column_array
            []
          ≡ ok columns)
      × ((name : String)
          → get name r.columns ≡ (
              if member name (changed_names local.changed)
              then some (value_at name local)
              else get name columns))
unfolding resolve_conflict sanitized_raw
resolve_conflict_lem fresh local remote t r nonempty h =
    let dirty = with_fields local.id (status_text local.status) local.changed remote in
    let (base, lifted, e) = >>=-eq-ok (lift (sanitized_raw fresh dirty t)) _ h in
    let (columns, made, e') =
      >>=-eq-ok (sanitize_columns dirty t.column_array []) _
        (lift-eq-ok (sanitized_raw fresh dirty t) lifted) in
    let whole = ap (overlay local) (ok-injective e') ∙ ok-injective e in
    (
      (
        ap (λ z. z.id) (sym whole)
            ∙ ap (id_or fresh)
                (with_fields-id local.id (status_text local.status) local.changed remote)
            ∙ ap (λ b. if b then fresh else local.id) nonempty,
        ap (λ z. z.status) (sym whole)
            ∙ ap status_of
                (with_fields-status local.id (status_text local.status) local.changed remote)
            ∙ status_of-status_text local.status,
        ap (λ z. z.changed) (sym whole)
            ∙ ap (text_or "")
                (with_fields-changed local.id (status_text local.status) local.changed remote),
      ),
      columns,
      made,
      λ name.
          ap (λ z. get name z.columns) (sym whole)
          ∙ get-put_local name (changed_names local.changed) local columns,
    )
