-- ===== src/RawRecord/Marks.antt =====
-- Dirty tracking: what `markAsChanged` adds to `_changed`.
use Prim.Native.Char.{Char, code}
use remelon_db.Prelude.{
  String, ◌≡◌, refl, ap, ◌∙◌, Bool, true, false, List, [], ◌∷◌, ◌++◌, ◌==◌, eq_iff, arith,
  if◌then◌else◌, All-append, Bool-cases, inl, inr,
}
use remelon_db.Prelude.Set.{member}
use text.Mathlib.TextLemmas.{nil-append, cons-append}
use remelon_db.Prelude.Text.{◌+++◌, join, all_codes}
use remelon_db.Prelude.Split.{split, lacks, AreWords, split-AreWords, split-join}
use remelon_db.RawRecord.{
  RawRecord, SyncStatus, synced, created, updated, deleted, comma, changed_names, dirty_status,
  is_deleted, mark_as_changed,
}

-- the names after `column` was added, if it was not there
abbrev pub with_name : String → List String → List String
with_name column names = if member column names then names else names ++ (column ∷ [])

changed_names-AreWords : (changed : String) → AreWords (code comma) (changed_names changed)
unfolding changed_names
changed_names-AreWords changed = at (changed == "")
  where
    at : (b : Bool) → AreWords (code comma) (if b then [] else split (code comma) changed)
    at true = tt
    at false = split-AreWords (code comma) changed

-- The names survive being written to `_changed`.
changed_names-join :
    (w : String) (ws : List String)
    → AreWords (code comma) (w ∷ ws)
    → (join "," (w ∷ ws) == "") ≡ false
    → changed_names (join "," (w ∷ ws)) ≡ w ∷ ws
unfolding changed_names
changed_names-join w ws h e =
    ap (λ b. if b then [] else split (code comma) (join "," (w ∷ ws))) e ∙ split-join comma w ws h

-- a text that starts with a character is not empty
cons-nonempty : (c : Char) (s : String) → (String.◌∷◌ c s == "") ≡ false
unfolding all_codes
cons-nonempty c s = elim (Bool-cases (String.◌∷◌ c s == "")) [
  | inl e ↦
      let same : String.◌∷◌ c s ≡ "" = (eq_iff (String.◌∷◌ c s) "").0 e in
      let absurd : false ≡ true = ap (all_codes (λ _. false)) same in ground arith
  | inr e ↦ e
]

append-nonempty : (s t : String) → (t == "") ≡ false → (s +++ t == "") ≡ false
append-nonempty String.[] t h = ap (λ z. z == "") (nil-append t) ∙ h
append-nonempty (String.◌∷◌ c s) t h =
    ap (λ z. z == "") (cons-append c s t) ∙ cons-nonempty c (s +++ t)

join-nonempty :
    (names : List String) (column : String)
    → (column == "") ≡ false
    → (join "," (names ++ (column ∷ [])) == "") ≡ false
unfolding join
join-nonempty [] column h = h
join-nonempty (w ∷ []) column h = append-nonempty w ("," +++ column) (append-nonempty "," column h)
join-nonempty (w ∷ v ∷ names) column h = append-nonempty w _ (
    append-nonempty "," (join "," ((v ∷ names) ++ (column ∷ [])))
      (join-nonempty (v ∷ names) column h))

changed_names-add :
    (names : List String) (column : String)
    → AreWords (code comma) (names ++ (column ∷ []))
    → (column == "") ≡ false
    → changed_names (join "," (names ++ (column ∷ []))) ≡ names ++ (column ∷ [])
changed_names-add [] column h e = changed_names-join column [] h (join-nonempty [] column e)
changed_names-add (w ∷ names) column h e =
    changed_names-join w (names ++ (column ∷ [])) h (join-nonempty (w ∷ names) column e)

-- what a record that is not deleted becomes
abbrev marked : String → RawRecord → RawRecord
marked column raw =
    let names = changed_names raw.changed in
    record raw {
      status = dirty_status raw.status;
      changed = if member column names then raw.changed else join "," (names ++ (column ∷ []));
    }

changed_names-marked :
    (column : String) (raw : RawRecord)
    → (column == "") ≡ false
    → lacks (code comma) column ≡ true
    → changed_names (marked column raw).changed ≡ with_name column (changed_names raw.changed)
changed_names-marked column raw e word = at (member column names)
  where
    names : List String
    names = changed_names raw.changed

    added : changed_names (join "," (names ++ (column ∷ []))) ≡ names ++ (column ∷ [])
    added =
        changed_names-add names column
          (All-append (λ w. lacks (code comma) w ≡ true) names (column ∷ [])
            (changed_names-AreWords raw.changed) (word, tt))
          e

    at :
        (b : Bool)
        → changed_names (if b then raw.changed else join "," (names ++ (column ∷ [])))
          ≡ (if b then names else names ++ (column ∷ []))
    at true = refl
    at false = added

-- how a record and the one with `column` marked compare
abbrev pub IsMarked : String → RawRecord → RawRecord → Type 0
IsMarked column raw out =
    (changed_names out.changed ≡ (
      if is_deleted raw.status
      then changed_names raw.changed
      else with_name column (changed_names raw.changed)))
    × (out.status ≡ dirty_status raw.status)
    × (out.id ≡ raw.id)
    × (out.columns ≡ raw.columns)

-- For a column name that is not empty and has no comma: marking the column of a record that is not
-- deleted adds the name to the names of `_changed`, at the end and only if it is not among them; a
-- deleted record keeps its names. `created` and `deleted` stay, `synced` and `updated` become
-- `updated`; id and values stay.
pub mark_as_changed_lem :
    (column : String) (raw : RawRecord)
    → (column == "") ≡ false
    → lacks (code comma) column ≡ true
    → IsMarked column raw (mark_as_changed column raw)
unfolding mark_as_changed
mark_as_changed_lem column raw e word = at raw.status
  where
    with_status : SyncStatus → RawRecord
    with_status s = record raw { status = s }

    at : (s : SyncStatus) → IsMarked column (with_status s) (mark_as_changed column (with_status s))
    at deleted = (refl, refl, refl, refl)
    at created = (changed_names-marked column (with_status created) e word, refl, refl, refl)
    at synced = (changed_names-marked column (with_status synced) e word, refl, refl, refl)
    at updated = (changed_names-marked column (with_status updated) e word, refl, refl, refl)
