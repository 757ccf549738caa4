-- ===== src/Server/Engine/Partition/Named.antt =====
-- The ids that a push request names, read off the request itself, and the entries of the partition.
use remelon_db.Prelude.{
  String, ◌≡◌, refl, ◌∙◌, ap, sym, Bool, true, false, not, ◌&&◌, ◌||◌, Option, none, some, List, [],
  ◌∷◌, arith, subst, ap₂, ◌==◌, eq_iff, any, All, inl, inr, Option-cases,
}
use remelon_db.Prelude.Map.{Map, get, set, remove, keys, values}
use remelon_db.Prelude.Set.{member, member-append, member-unique}
use remelon_db.Wire.{DirtyRaw, field, TableChanges, SyncChanges}
use remelon_db.Server.Store.{WireRow, row_ids}
use remelon_db.Server.Engine.{unusable_id, ok, err, >>=-eq-ok, ok-injective, Entry}
use remelon_db.Server.Engine.Screen.Sound.{tables}
use remelon_db.Server.Engine.Partition.{
  usable, wire_row, collect_rows, supersede, stated, deletions, entry_of, parse_table, parse,
}

abbrev pub is_id : String → Option String → Bool
is_id id none = false
is_id id (some other) = other == id

-- The record states this id.
abbrev pub states : String → DirtyRaw → Bool
states id raw = is_id id (usable (field "id" raw))

abbrev deleted_of : Option (TableChanges DirtyRaw) → List String
deleted_of none = []
deleted_of (some change) = change.deleted

-- The request creates, updates or deletes the id in the table.
unfoldable pub is_requested : SyncChanges DirtyRaw → String → String → Bool
is_requested changes table id =
    any (states id) (stated (get table changes)) || member id (deleted_of (get table changes))

-- Every row is filed under its own id.
abbrev IsKeyed : Map WireRow → Type 0
IsKeyed rows = All (λ e. e.0 ≡ e.1.id) rows

set-IsKeyed : (row : WireRow) (rows : Map WireRow) → IsKeyed rows → IsKeyed (set row.id row rows)
unfolding set
set-IsKeyed row [] h = (refl, tt)
set-IsKeyed row ((k, w) ∷ rest) (e, h) = ground (arith, set-IsKeyed row rest h)

remove-IsKeyed : (id : String) (rows : Map WireRow) → IsKeyed rows → IsKeyed (remove id rows)
unfolding remove
remove-IsKeyed id [] h = tt
remove-IsKeyed id ((k, w) ∷ rest) (e, h) = ground (arith, remove-IsKeyed id rest h)

member-keys-set :
    (id : String) (row : WireRow) (rows : Map WireRow)
    → member id (keys (set row.id row rows)) ≡ member id (keys rows) || row.id == id
unfolding member set
member-keys-set id row [] = ground arith
member-keys-set id row ((k, w) ∷ rest) =
    ground (arith, member-keys-set id row rest, eq_iff k row.id, eq_iff k id, eq_iff row.id id)

member-keys-remove :
    (id drop : String) (rows : Map WireRow)
    → member id (keys (remove drop rows)) ≡ member id (keys rows) && not (drop == id)
unfolding member remove
member-keys-remove id drop [] = refl
member-keys-remove id drop ((k, w) ∷ rest) =
    ground (arith, member-keys-remove id drop rest, eq_iff k drop, eq_iff k id, eq_iff drop id)

keys-eq-row_ids : (rows : Map WireRow) → IsKeyed rows → keys rows ≡ row_ids (values rows)
keys-eq-row_ids [] h = refl
keys-eq-row_ids ((k, w) ∷ rest) (e, h) = cc (e, keys-eq-row_ids rest h)

supersede-lem :
    (ids : List String) (rows : Map WireRow)
    → IsKeyed rows
    → IsKeyed (supersede ids rows)
      × ((id : String)
          → member id (keys (supersede ids rows)) ≡ member id (keys rows) && not (member id ids))
unfolding supersede member
supersede-lem [] rows h = (h, λ id. ground arith)
supersede-lem (d ∷ ids) rows h =
    let (keyed, ids_of) = supersede-lem ids (remove d rows) (remove-IsKeyed d rows h) in
    (keyed, λ id. ground (arith, ids_of id, member-keys-remove id d rows))

collect_rows-lem :
    (raws : List DirtyRaw) (rows out : Map WireRow)
    → collect_rows raws rows ≡ ok out
    → IsKeyed rows
    → IsKeyed out
      × ((id : String) → member id (keys out) ≡ member id (keys rows) || any (states id) raws)
unfolding collect_rows
collect_rows-lem [] rows out e h = (subst IsKeyed (ground arith) h, λ id. ground arith)
collect_rows-lem (raw ∷ rest) rows out e h = elim (Option-cases (usable (field "id" raw))) [
  | inl bad ↦ absurd (bad_id (rw (bad, wire_row) at e))
  | inr (new, good) ↦
      let row : WireRow = record { id = new; raw = raw } in
      let (keyed, ids_of) =
        collect_rows-lem rest (set new row rows) out (rw (good, wire_row) at e)
          (set-IsKeyed row rows h) in
      (keyed, λ id. ground (arith, ids_of id, member-keys-set id row rows, good))
]
  where
    bad_id : err unusable_id ≡ ok out → ⊥
    bad_id h = cc

-- What the partition makes of one table of the request.
pub record IsPartition (changes : SyncChanges DirtyRaw) (entry : Entry) : Type 0 where
  pub named : (id : String) → member id entry.all_ids ≡ is_requested changes entry.table id
  pub split :
      (id : String)
      → member id entry.all_ids ≡ member id (row_ids entry.rows) || member id entry.deletes
  pub apart :
      (id : String) → member id entry.deletes ≡ true → member id (row_ids entry.rows) ≡ false

member-deletions :
    (id : String) (change : Option (TableChanges DirtyRaw))
    → member id (deletions change) ≡ member id (deleted_of change)
member-deletions id none = refl
member-deletions id (some change) = member-unique id change.deleted

entry_of-IsPartition :
    (changes : SyncChanges DirtyRaw) (table : String) (by_id : Map WireRow)
    → collect_rows (stated (get table changes)) [] ≡ ok by_id
    → IsPartition changes (
        entry_of table
          (deletions (get table changes))
          (supersede (deletions (get table changes)) by_id))
unfolding is_requested
entry_of-IsPartition changes table by_id e =
    let change : Option (TableChanges DirtyRaw) = get table changes in
    let dels : List String = deletions change in
    let (keyed, stated_ids) = collect_rows-lem (stated change) [] by_id e tt in
    let (keyed', kept_ids) = supersede-lem dels by_id keyed in
    let same = keys-eq-row_ids (supersede dels by_id) keyed' in
    let nil_ids : (id : String) → member id [] ≡ false = λ id. unfold member in refl in
    record {
      named = λ id. ground (
        arith,
        member-append id (keys (supersede dels by_id)) dels,
        kept_ids id,
        stated_ids id,
        nil_ids id,
        member-deletions id change,
      );
      split = λ id.
          member-append id (keys (supersede dels by_id)) dels
          ∙ ap (λ ids. member id ids || member id dels) same;
      apart = λ id h. sym (ap (member id) same) ∙ kept_ids id ∙ ground (arith, h);
    }

parse_table-lem :
    (changes : SyncChanges DirtyRaw) (table : String) (entry : Entry)
    → parse_table changes table ≡ ok entry
    → (entry.table ≡ table) × IsPartition changes entry
unfolding parse_table
parse_table-lem changes table entry e =
    let (by_id, collected, built) = >>=-eq-ok _ _ e in
    let same = ok-injective built in
    (
      sym (ap (λ (en : Entry). en.table) same),
      subst (IsPartition changes) same (entry_of-IsPartition changes table by_id collected),
    )

-- A request that parses gives one entry for each configured table, in order.
pub parse-lem :
    (changes : SyncChanges DirtyRaw) (names : List String) (entries : List Entry)
    → parse changes names ≡ ok entries
    → (tables entries ≡ names) × All (IsPartition changes) entries
unfolding parse
parse-lem changes [] entries e =
    (ap tables (sym (ok-injective e)), subst (All (IsPartition changes)) (ok-injective e) tt)
parse-lem changes (table ∷ rest) entries e =
    let (entry, here, later) = >>=-eq-ok _ _ e in
    let (entries', there, built) = >>=-eq-ok _ _ later in
    let (name, part) = parse_table-lem changes table entry here in
    let (names, parts) = parse-lem changes rest entries' there in
    let same : entry ∷ entries' ≡ entries = ok-injective built in
    (
      sym (ap tables same) ∙ ap₂ (◌∷◌) name names,
      subst (All (IsPartition changes)) same (part, parts),
    )
