-- ===== src/Sync/Tests.antt =====
-- Runs of the sync client at concrete records.
use remelon_db.Prelude.{◌≡◌, refl, String, [], ◌∷◌, some, if◌then◌else◌}
use remelon_db.Prelude.Map.{Map, get, set}
use remelon_db.Prelude.Set.{member}
use remelon_db.Prelude.Split.{split}
use remelon_db.Prelude.Result.{ok}
use remelon_db.Wire.{DirtyRaw, string, null}
use remelon_db.Schema.Tests.{todos}
use remelon_db.RawRecord.{
  RawRecord, SqlValue, sql_text, sql_null, updated, changed_names, sanitize_columns,
}
use remelon_db.Sync.{value_at}
use remelon_db.Sync.Resolve.{resolve_conflict, resolve_conflict_lem, KeepsMarks, with_fields}
use remelon_db.Prelude.{List, none, not, ◌&&◌, ◌||◌, eq_iff, arith, false}
use remelon_db.Prelude.Map.{has}
use remelon_db.RawRecord.{deleted, synced}
use remelon_db.Sync.{Operation, create}
use remelon_db.Sync.Apply.{ApplyOptions, remote_id, apply_rows}
use remelon_db.Sync.Apply.Rows.{AreFiled, names, is_buried, apply_rows_lem}
use remelon_db.Prelude.{any}
use remelon_db.Wire.{TableChanges}
use remelon_db.Sync.Mark.{DirtyRecordSnapshot, mark_records, mark_table_deleted, still_tombstoned}
use remelon_db.Sync.Mark.Gates.{is_settled, mark_table_lem}
use remelon_db.Prelude.Set.{member}
use remelon_db.Prelude.Result.{err}
use remelon_db.Prelude.Set.{unique}
use remelon_db.Sync.{invalid_blob}
use remelon_db.Sync.Apply.{Normal, normalize}
use remelon_db.Sync.Apply.Disjoint.{IsDisjoint, normalize-IsDisjoint}

-- a record whose title was changed locally
abbrev local : RawRecord
local = record {
  id = "a";
  status = updated;
  changed = "title";
  columns = ("title", sql_text "here") ∷ ("position", sql_null) ∷ [];
}

abbrev remote : DirtyRaw
remote = ("id", string "a") ∷ ("title", string "there") ∷ ("position", null) ∷ []

resolves : resolve_conflict "fresh" local remote todos ≡ ok local
unfolding resolve_conflict get set split
resolves = refl

resolve_conflict_lem_example :
    KeepsMarks local local
    × (columns : Map SqlValue) × (sanitize_columns
          (with_fields "a" "updated" "title" remote)
          todos.column_array
          []
        ≡ ok columns)
    × ((name : String)
        → get name local.columns ≡ (
            if member name (changed_names "title")
            then some (value_at name local)
            else get name columns))
resolve_conflict_lem_example = resolve_conflict_lem "fresh" local remote todos local refl resolves

-- a record that was deleted on this device
abbrev gone : RawRecord
gone = record local { id = "b"; status = deleted }

abbrev table_rows : Map RawRecord
table_rows = ("b", gone) ∷ []

abbrev created_rows : Map DirtyRaw
created_rows = ("b", set "id" (string "b") remote) ∷ ("c", set "id" (string "c") remote) ∷ []

abbrev operations : List Operation
operations =
    create (record {
      id = "c";
      status = synced;
      changed = "";
      columns = ("title", sql_text "there") ∷ ("position", sql_null) ∷ [];
    })
    ∷ []

abbrev pulling : ApplyOptions
pulling = record { conflict_resolver = none; replacement = false }

applies : apply_rows pulling "fresh" "todos" todos table_rows created_rows ≡ ok operations
unfolding apply_rows get set
applies = refl

filed : AreFiled table_rows
unfolding get
filed id raw h = ground (arith, eq_iff "b" id)

apply_rows_lem_example :
    (names "b" operations && (not (has "b" created_rows) || is_buried (get "b" table_rows))) ≡ false
unfolding remote_id get set
apply_rows_lem_example =
    apply_rows_lem pulling "fresh" "todos" todos table_rows created_rows operations "b" refl filed
      (refl, (refl, tt)) applies

abbrev snapshot : DirtyRecordSnapshot
snapshot = record { current = local; frozen = local }

abbrev pushed_changes : TableChanges DirtyRaw
pushed_changes = record { created = []; updated = []; deleted = "b" ∷ [] }

mark_table_lem_example :
    (names "b" (mark_records [] (snapshot ∷ [])) ≡ any (is_settled [] "b") (snapshot ∷ []))
    × (names "b" (mark_table_deleted (λ _ _. gone ∷ []) [] ("todos", pushed_changes)) ≡ (
        (member "b" ("b" ∷ []) && not (member "b" []))
        && member "b" (still_tombstoned (gone ∷ []))))
unfolding get
mark_table_lem_example =
    mark_table_lem (λ _ _. gone ∷ []) [] "todos" (snapshot ∷ []) pushed_changes "b"

-- "b" is created and deleted, "c" is created and updated
abbrev mixed : TableChanges DirtyRaw
mixed = record {
  created = set "id" (string "b") remote ∷ set "id" (string "c") remote ∷ [];
  updated = set "id" (string "c") remote ∷ [];
  deleted = "b" ∷ "b" ∷ [];
}

abbrev normal : Normal
normal = record {
  created = [];
  updated = ("c", set "id" (string "c") remote) ∷ [];
  deleted = "b" ∷ [];
}

normalizes : normalize (λ _. err invalid_blob) todos mixed ≡ ok normal
unfolding normalize get set member unique
normalizes = refl

normalize-IsDisjoint_example :
    IsDisjoint "c" normal × (member "c" normal.deleted ≡ member "c" mixed.deleted)
normalize-IsDisjoint_example =
    normalize-IsDisjoint (λ _. err invalid_blob) todos mixed normal "c" normalizes
