-- ===== src/RawRecord/Tests.antt =====
-- Runs of sanitization and dirty tracking at concrete records.
use remelon_db.Prelude.{◌≡◌, refl, true, false, [], ◌∷◌, ◌==◌}
use remelon_db.Prelude.Map.{get, set}
use remelon_db.Prelude.Text.{all_codes}
use remelon_db.Prelude.Result.{ok, err}
use remelon_db.Wire.{DirtyRaw, string, number, boolean, whole}
use remelon_db.Schema.Tests.{columns, todos, built}
use remelon_db.RawRecord.{
  RawRecord, sql_text, sql_null, created, synced, unsafe_integer, sanitized_raw, mark_as_changed,
}
use remelon_db.RawRecord.Values.{AreValuesOf, sanitized_raw-AreValuesOf}
use remelon_db.RawRecord.Marks.{IsMarked, mark_as_changed_lem}

abbrev dirty : DirtyRaw
dirty = ("title", string "milk") ∷ ("position", boolean true) ∷ ("extra", string "x") ∷ []

abbrev milk : RawRecord
milk = record {
  id = "fresh";
  status = created;
  changed = "";
  columns = ("title", sql_text "milk") ∷ ("position", sql_null) ∷ [];
}

sanitizes : sanitized_raw "fresh" dirty todos ≡ ok milk
unfolding sanitized_raw get set
sanitizes = refl

refuses :
    sanitized_raw "fresh" (("position", number (whole 9007199254740992)) ∷ []) todos
    ≡ err unsafe_integer
unfolding sanitized_raw get set
refuses = refl

sanitized_raw-AreValuesOf_example : AreValuesOf columns milk.columns × ((milk.id == "") ≡ false)
sanitized_raw-AreValuesOf_example =
    sanitized_raw-AreValuesOf "fresh" "todos" columns false todos dirty milk built refl sanitizes

mark_as_changed_lem_example :
    IsMarked "title"
      (record milk { status = synced; changed = "position" })
      (mark_as_changed "title" (record milk { status = synced; changed = "position" }))
unfolding all_codes
mark_as_changed_lem_example =
    mark_as_changed_lem "title" (record milk { status = synced; changed = "position" }) refl refl
