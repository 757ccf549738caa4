-- ===== src/Server/Engine/Reply.antt =====
-- engine.ts: `collectSince` and `toChanges`.
pub mod Laws
use remelon_db.Prelude.{
  ℕ, String, Bool, Option, none, some, List, [], ◌∷◌, ◌++◌, map, if◌then◌else◌, or_else,
}
use remelon_db.Prelude.Map.{Map, get}
use remelon_db.Prelude.Set.{member}
use remelon_db.Wire.{TableChanges, SyncChanges}
use remelon_db.Server.Store.{WireRow, StoredChange, SyncStore}

abbrev pub nothing : TableChanges WireRow
nothing = record { created = []; updated = []; deleted = [] }

abbrev pub put_row : Option WireRow → String → TableChanges WireRow → TableChanges WireRow
put_row none id set = record set { deleted = id ∷ set.deleted }
put_row (some row) id set = record set { updated = row ∷ set.updated }

-- the inner loop of `toChanges`; the pushes keep the order of the stored changes
unfoldable pub change_set : List String → List StoredChange → TableChanges WireRow
change_set exclude [] = nothing
change_set exclude (change ∷ rest) =
    let set = change_set exclude rest in
    if member change.id exclude then set else put_row change.row change.id set

unfoldable pub to_changes :
    List (String × List StoredChange) → Map (List String) → SyncChanges WireRow
unfolding change_set
to_changes by_table exclude =
    map (λ e. (e.0, change_set (or_else (get e.0 exclude) []) e.1)) by_table

module _ {Scope : Type 0} (store : SyncStore Scope) where
  unfoldable pub collect_since :
      List String → Scope → ℕ → store.State → List (String × List StoredChange)
  collect_since table_names scope since s =
      map (λ table. (table, store.changed_since table scope since s)) table_names
