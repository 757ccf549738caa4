-- ===== src/Sync/Mark/Gates.antt =====
-- Which records a successful push settles.
use remelon_db.Prelude.{
  String, ◌≡◌, refl, ap, ap₂, ◌∙◌, Bool, true, false, not, ◌&&◌, ◌||◌, List, [], ◌∷◌, ◌==◌, eq_iff,
  arith, any, filter, is_empty, or_else, if◌then◌else◌,
}
use remelon_db.Prelude.Map.{Map, get}
use remelon_db.Prelude.Set.{member, member-filter}
use remelon_db.Wire.{DirtyRaw, TableChanges}
use remelon_db.RawRecord.{RawRecord}
use remelon_db.Sync.{Operation, update, destroy, operation_id, are_records_equal}
use remelon_db.Sync.Apply.{tombstone_of}
use remelon_db.Sync.Apply.Rows.{names}
use remelon_db.Sync.Mark.{
  DirtyRecordSnapshot, as_synced_record, mark_records, mark_deleted, still_tombstoned,
  mark_table_deleted,
}

-- A snapshot of the record that did not change since, and that the server did not refuse.
unfoldable pub is_settled : List String → String → DirtyRecordSnapshot → Bool
is_settled rejected id s =
    s.current.id == id && (not (member id rejected) && are_records_equal s.current s.frozen)

-- an operation put in front under a condition
names-put :
    (id : String) (o : Operation) (rest : List Operation) (b : Bool)
    → names id (if b then o ∷ rest else rest) ≡ ((operation_id o == id && b) || names id rest)
names-put id o rest true = ground arith
names-put id o rest false = ground arith

-- a test on `k` where `k` is `id`
same-test : (p : String → Bool) (k id : String) → (k == id && p k) ≡ (k == id && p id)
same-test p k id = at (k == id) refl
  where
    at : (same : Bool) → (k == id) ≡ same → (same && p k) ≡ (same && p id)
    at true e = ap p ((eq_iff k id).0 e)
    at false e = refl

names-mark_records :
    (id : String) (rejected : List String) (snapshots : List DirtyRecordSnapshot)
    → names id (mark_records rejected snapshots) ≡ any (is_settled rejected id) snapshots
unfolding mark_records is_settled
names-mark_records id rejected [] = refl
names-mark_records id rejected (s ∷ snapshots) =
    let equal = are_records_equal s.current s.frozen in
    names-put id (update (as_synced_record s.current)) (mark_records rejected snapshots)
      (not (member s.current.id rejected) && equal)
    ∙ ap₂ (λ x y. x || y) (same-test (λ k. not (member k rejected) && equal) s.current.id id)
        (names-mark_records id rejected snapshots)

names-mark_deleted :
    (id : String) (tombstoned ids : List String)
    → names id (mark_deleted tombstoned ids) ≡ (member id ids && member id tombstoned)
unfolding mark_deleted member
names-mark_deleted id tombstoned [] = refl
names-mark_deleted id tombstoned (k ∷ ids) =
    names-put id (destroy (tombstone_of k)) (mark_deleted tombstoned ids) (member k tombstoned)
    ∙ ap₂ (λ x y. x || y) (same-test (λ j. member j tombstoned) k id)
        (names-mark_deleted id tombstoned ids)
    ∙ ground arith

-- the ids of a table that the server rejected
abbrev pub refused_ids : Map (List String) → String → List String
refused_ids rejected table = or_else (get table rejected) []

-- the deletions that were pushed and not rejected
abbrev pub pushed_ids : Map (List String) → String → List String → List String
pushed_ids rejected table deleted =
    filter (λ i. not (member i (refused_ids rejected table))) deleted

deleted-part :
    (id : String) (tombstoned ids : List String)
    → names id (if is_empty ids then [] else mark_deleted tombstoned ids)
      ≡ (member id ids && member id tombstoned)
unfolding member
deleted-part id tombstoned [] = refl
deleted-part id tombstoned (k ∷ ids) = names-mark_deleted id tombstoned (k ∷ ids)

-- After a push, the operations on the dirty records of a table are about the records that the
-- server did not reject and that equal the copy taken before the push, and about all of these;
-- those on its tombstones are about the pushed deletions that were not rejected and that the
-- database still holds as tombstones, and about all of these.
pub mark_table_lem :
    (lookup : String → List String → List RawRecord) (rejected : Map (List String)) (table : String)
    (snapshots : List DirtyRecordSnapshot) (changes : TableChanges DirtyRaw) (id : String)
    → (names id (mark_records (refused_ids rejected table) snapshots)
        ≡ any (is_settled (refused_ids rejected table) id) snapshots)
      × (names id (mark_table_deleted lookup rejected (table, changes)) ≡ (
          (member id changes.deleted && not (member id (refused_ids rejected table)))
          && member id
              (still_tombstoned (lookup table (pushed_ids rejected table changes.deleted)))))
mark_table_lem lookup rejected table snapshots changes id =
    let pushed = pushed_ids rejected table changes.deleted in
    let tombstoned = still_tombstoned (lookup table pushed) in
    (
      names-mark_records id (refused_ids rejected table) snapshots,
      deleted-part id tombstoned pushed
          ∙ ap (λ b. b && member id tombstoned)
              (member-filter id (λ i. not (member i (refused_ids rejected table))) changes.deleted),
    )
