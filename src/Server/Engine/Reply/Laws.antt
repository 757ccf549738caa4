-- ===== src/Server/Engine/Reply/Laws.antt =====
-- What a change set tells of a table.
use remelon_db.Prelude.{
  ℕ, String, ◌≡◌, refl, Bool, false, not, ◌&&◌, ◌||◌, Option, none, some, List, [], ◌∷◌, map, arith,
  ◌==◌, eq_iff, All, or_else, if◌then◌else◌,
}
use remelon_db.Prelude.Map.{Map, get}
use remelon_db.Prelude.Set.{member}
use remelon_db.Wire.{TableChanges, SyncChanges}
use remelon_db.Server.Store.{WireRow, StoredChange, SyncStore, row_ids}
use remelon_db.Server.Engine.Reply.{put_row, change_set, to_changes, collect_since}

-- The change set names the id.
abbrev pub mentions : TableChanges WireRow → String → Bool
mentions set id =
    member id (row_ids set.created) || member id (row_ids set.updated) || member id set.deleted

abbrev pub reply_mentions : SyncChanges WireRow → String → String → Bool
reply_mentions changes table id = elim (get table changes) [
  | none ↦ false
  | some set ↦ mentions set id
]

abbrev pub HasRowId : String → Option WireRow → Type 0
HasRowId id none = Unit
HasRowId id (some row) = row.id ≡ id

-- The row of a change stands under the change's own id.
abbrev pub IsFiled : StoredChange → Type 0
IsFiled change = HasRowId change.id change.row

abbrev pub change_ids : List StoredChange → List String
change_ids changes = map (λ c. c.id) changes

put_row-mentions :
    (row : Option WireRow) (id i : String) (set : TableChanges WireRow)
    → HasRowId id row
    → mentions (put_row row id set) i ≡ id == i || mentions set i
unfolding member
put_row-mentions none id i set h = ground arith
put_row-mentions (some row) id i set h = ground (arith, h)

-- A change set names exactly the ids that changed and are not excluded.
pub change_set-mentions :
    (exclude : List String) (changes : List StoredChange) (id : String)
    → All IsFiled changes
    → mentions (change_set exclude changes) id
      ≡ member id (change_ids changes) && not (member id exclude)
unfolding change_set
change_set-mentions exclude [] id h = unfold member in refl
change_set-mentions exclude (change ∷ rest) id (filed, h) = ground (
  arith,
  change_set-mentions exclude rest id h,
  put_row-mentions change.row change.id id (change_set exclude rest) filed,
  eq_iff change.id id,
  member_cons,
)
  where
    member_cons :
        member id (change_ids (change ∷ rest)) ≡ change.id == id || member id (change_ids rest)
    member_cons = unfold member in refl

module _ {Scope : Type 0} (store : SyncStore Scope) (scope : Scope) (since : ℕ) (s : store.State)
    (exclude : Map (List String)) where
  abbrev pub table_changes : String → TableChanges WireRow
  table_changes table =
      change_set (or_else (get table exclude) []) (store.changed_since table scope since s)

  pub get-to_changes :
      (names : List String) (table : String)
      → get table (to_changes (collect_since store names scope since s) exclude)
        ≡ (if member table names then some (table_changes table) else none)
  unfolding to_changes collect_since get member
  get-to_changes [] table = refl
  get-to_changes (name ∷ names) table =
      ground (arith, get-to_changes names table, eq_iff name table)
