-- ===== src/Server/Engine/Screen.antt =====
-- engine.ts, `push`: the steps that refuse ids table by table (ownership, validation, tombstones and
-- append-only tables), and the conflict scan between them.
pub mod Sound
use remelon_db.Prelude.{
  ℕ, String, Bool, true, false, not, ◌||◌, Option, none, some, List, [], ◌∷◌, ◌++◌, map, ltb,
  is_empty, filter, any, if◌then◌else◌, or_else,
}
use remelon_db.Prelude.Map.{Map, get, set, has, values}
use remelon_db.Prelude.Set.{unique, member}
use remelon_db.Server.Store.{WireRow, SyncStore, row_ids}
use remelon_db.Server.Engine.{
  TableConfig, Options, Entry, Rejected, reject, without_rows, without_ids, drop_ids,
}

-- One round of a loop `for (const entry of parsed)` that rewrites the entry and adds rejections.
abbrev pub Step : Type 0
Step = Entry → Rejected → Entry × Rejected

unfoldable pub each : Step → List Entry → Rejected → List Entry × Rejected
each step [] rejected = ([], rejected)
each step (entry ∷ rest) rejected =
    let (entry', rejected') = step entry rejected in
    let (rest', rejected'') = each step rest rejected' in (entry' ∷ rest', rejected'')

-- The rejection of a set of ids, when there are any.
unfoldable pub refuse : List String → Step
unfolding reject drop_ids
refuse ids entry rejected =
    if is_empty ids
    then (entry, rejected)
    else (drop_ids ids entry, reject entry.table ids rejected)

-- Per-record validation: the rows that fail are refused.
unfoldable pub validate_with : Option (WireRow → Bool) → Step
validate_with none entry rejected = (entry, rejected)
validate_with (some valid) entry rejected =
    let failed = row_ids (filter (λ r. not (valid r)) entry.rows) in
    if is_empty failed
    then (entry, rejected)
    else (record entry { rows = filter valid entry.rows }, reject entry.table failed rejected)

module _ {Scope : Type 0} (store : SyncStore Scope) where
  -- "Ownership first"
  unfoldable pub own : Scope → store.State → Step
  own scope s entry rejected =
      let foreign = unique (store.foreign_ids entry.table scope entry.all_ids s) in
      if is_empty entry.all_ids || is_empty foreign then (entry, rejected) else (
        record entry {
          rows = without_rows foreign entry.rows;
          deletes = without_ids foreign entry.deletes;
          all_ids = without_ids foreign entry.all_ids;
        },
        reject entry.table foreign rejected,
      )

  -- "Conflict dominates": the revisions of every named id, or none when one is above the cursor.
  unfoldable pub scan : Scope → ℕ → store.State → List Entry → Option (Map (Map ℕ))
  scan scope since s [] = some []
  scan scope since s (entry ∷ rest) =
      let later = scan scope since s rest in
      if is_empty entry.all_ids
      then later
      else let revs = store.current_revs entry.table scope entry.all_ids s in
        if any (λ rev. ltb since rev) (values revs)
        then none
        else elim later [ none ↦ none | some found ↦ some ((entry.table, revs) ∷ found) ]

  -- options.tables[table]?.validate
  abbrev pub validator : Options store → String → Option (WireRow → Bool)
  validator options table = elim (get table options.tables) [
    | none ↦ none
    | some config ↦ config.validate
  ]

  unfoldable pub validate_rows : Options store → Step
  unfolding validate_with
  validate_rows options entry rejected =
      validate_with (validator options entry.table) entry rejected

  abbrev pub is_append_only : Options store → String → Bool
  is_append_only options table = elim (get table options.tables) [
    | none ↦ false
    | some config ↦ config.append_only
  ]

  -- the `drop` set of the last screening step
  unfoldable pub dead_ids : Options store → Scope → store.State → Map (Map ℕ) → Entry → List String
  dead_ids options scope s revs_by_table entry =
      let ids = row_ids entry.rows in
      let revs = or_else (get entry.table revs_by_table) [] in
      unique (
        store.tombstoned_ids entry.table scope ids s
        ++ (if is_append_only options entry.table then filter (λ id. has id revs) ids else []))

  -- A row that names a tombstone, or an existing row of an append-only table, is refused.
  unfoldable pub bury : Options store → Scope → store.State → Map (Map ℕ) → Step
  unfolding refuse dead_ids
  bury options scope s revs_by_table entry rejected =
      if is_empty entry.rows
      then (entry, rejected)
      else refuse (dead_ids options scope s revs_by_table entry) entry rejected
