-- ===== src/Server/Memory.antt =====
-- packages/server/src/memoryStore.ts: the in-memory store. `scopes` holds scope -> table -> id -> row
-- state. `tableOf` also leaves an empty map behind for a table that was only read; no operation tells
-- it from an absent one except by the order in which `foreignIds` visits scopes, so a table is made
-- here by the first write. Transactions are atomic, as the per-scope chain of promises makes pushes.
pub mod Rows
pub mod Revisions
pub mod Collect
use remelon_db.Prelude.{
  ℕ, ◌+◌, String, Bool, true, false, not, ◌&&◌, Option, none, some, List, [], ◌∷◌, ◌++◌, ◌==◌, ltb,
  leb, max, filter, or_else, if◌then◌else◌,
}
use remelon_db.Prelude.Map.{Map, get, set, has}
use remelon_db.Server.Store.{WireRow, StoredChange, SyncStore}
use remelon_db.Server.Cursor.{max_safe_integer}

pub record Stored : Type 0 where
  pub row : WireRow
  pub rev : ℕ
  pub deleted : Bool

abbrev pub Rows : Type 0
Rows = Map Stored

pub record MemoryState : Type 0 where
  pub scopes : Map (Map Rows)
  pub rev : ℕ
  pub floor : ℕ

abbrev pub create_memory_store : MemoryState
create_memory_store = record { scopes = []; rev = 0; floor = 0 }

abbrev pub tables_of : String → MemoryState → Map Rows
tables_of scope st = or_else (get scope st.scopes) []

abbrev pub table_of : String → String → MemoryState → Rows
table_of scope table st = or_else (get table (tables_of scope st)) []

-- The rows of a table, put back.
unfoldable pub put_table : String → String → Rows → MemoryState → MemoryState
put_table scope table rows st = record st {
  scopes = set scope (set table rows (tables_of scope st)) st.scopes;
}

abbrev to_change : Stored → StoredChange
to_change stored = record {
  id = stored.row.id;
  rev = stored.rev;
  row = if stored.deleted then none else some stored.row;
}

-- the loop of `changedSince`
unfoldable pub changes_above : ℕ → Rows → List StoredChange
changes_above since [] = []
changes_above since ((id, stored) ∷ rest) =
    if leb stored.rev since
    then changes_above since rest
    else to_change stored ∷ changes_above since rest

unfoldable pub changed_since : String → String → ℕ → MemoryState → List StoredChange
unfolding changes_above
changed_since table scope since st = changes_above since (table_of scope table st)

-- the inner loop of `maxRev`, from the maximum so far
unfoldable pub max_of_rows : ℕ → Rows → ℕ
max_of_rows top [] = top
max_of_rows top ((id, stored) ∷ rest) =
    max_of_rows (if ltb top stored.rev then stored.rev else top) rest

unfoldable pub max_of_tables : ℕ → Map Rows → ℕ
unfolding max_of_rows
max_of_tables top [] = top
max_of_tables top ((table, rows) ∷ rest) = max_of_tables (max_of_rows top rows) rest

unfoldable pub max_rev : String → MemoryState → ℕ
unfolding max_of_tables
max_rev scope st = max_of_tables 0 (tables_of scope st)

abbrev note_rev : Option Stored → String → Map ℕ → Map ℕ
note_rev none id revs = revs
note_rev (some stored) id revs = set id stored.rev revs

-- the loop of `currentRevs`
unfoldable pub revs_of : Rows → List String → Map ℕ → Map ℕ
revs_of rows [] revs = revs
revs_of rows (id ∷ ids) revs = revs_of rows ids (note_rev (get id rows) id revs)

unfoldable pub current_revs : String → String → List String → MemoryState → Map ℕ
unfolding revs_of
current_revs table scope ids st = revs_of (table_of scope table st) ids []

-- rows.get(id)?.deleted === true
abbrev pub is_dead : Option Stored → Bool
is_dead none = false
is_dead (some stored) = stored.deleted

unfoldable pub tombstoned_ids : String → String → List String → MemoryState → List String
tombstoned_ids table scope ids st = filter (λ id. is_dead (get id (table_of scope table st))) ids

-- the loop of `foreignIds` over the scopes
foreign_in : String → String → List String → Map (Map Rows) → List String
foreign_in table scope ids [] = []
foreign_in table scope ids ((other, tables) ∷ rest) =
    if other == scope
    then foreign_in table scope ids rest
    else filter (λ id. has id (or_else (get table tables) [])) ids
      ++ foreign_in table scope ids rest

unfoldable pub foreign_ids : String → String → List String → MemoryState → List String
unfolding foreign_in
foreign_ids table scope ids st = foreign_in table scope ids st.scopes

-- the loop of `upsert`: "tombstones stay dead"
unfoldable pub upsert_rows : ℕ → List WireRow → Rows → Rows
upsert_rows batch_rev [] rows = rows
upsert_rows batch_rev (row ∷ rest) rows = upsert_rows batch_rev rest (
    if is_dead (get row.id rows)
    then rows
    else set row.id (record { row = row; rev = batch_rev; deleted = false }) rows)

unfoldable pub upsert : String → String → List WireRow → MemoryState → MemoryState × List String
unfolding put_table upsert_rows
upsert table scope rows st =
    let batch_rev = st.rev + 1 in
    (
      put_table scope table (upsert_rows batch_rev rows (table_of scope table st))
          (record st { rev = batch_rev }),
      [],
    )

abbrev pub bury : ℕ → Option Stored → String → Rows → Rows
bury batch_rev none id rows = rows
bury batch_rev (some stored) id rows =
    if stored.deleted then rows else set id (record stored { rev = batch_rev; deleted = true }) rows

-- the loop of `tombstone`
unfoldable pub tombstone_rows : ℕ → List String → Rows → Rows
tombstone_rows batch_rev [] rows = rows
tombstone_rows batch_rev (id ∷ rest) rows =
    tombstone_rows batch_rev rest (bury batch_rev (get id rows) id rows)

unfoldable pub tombstone : String → String → List String → MemoryState → MemoryState
unfolding put_table tombstone_rows
tombstone table scope ids st =
    let batch_rev = st.rev + 1 in
    put_table scope table (tombstone_rows batch_rev ids (table_of scope table st))
      (record st { rev = batch_rev })

-- the seam filled
abbrev pub memory_store : SyncStore String
memory_store = record {
  State = MemoryState;
  changed_since = changed_since;
  max_rev = max_rev;
  current_revs = current_revs;
  foreign_ids = foreign_ids;
  tombstoned_ids = tombstoned_ids;
  upsert = upsert;
  tombstone = tombstone;
  gc_floor = λ st. st.floor;
}

-- the loops of `gc`
unfoldable pub prune_rows : ℕ → Rows → Rows
prune_rows floor [] = []
prune_rows floor ((id, stored) ∷ rest) =
    if stored.deleted && leb stored.rev floor
    then prune_rows floor rest
    else (id, stored) ∷ prune_rows floor rest

unfoldable pub prune_tables : ℕ → Map Rows → Map Rows
unfolding prune_rows
prune_tables floor [] = []
prune_tables floor ((table, rows) ∷ rest) = (table, prune_rows floor rows) ∷ prune_tables floor rest

unfoldable pub prune_scopes : ℕ → Map (Map Rows) → Map (Map Rows)
unfolding prune_tables
prune_scopes floor [] = []
prune_scopes floor ((scope, tables) ∷ rest) =
    (scope, prune_tables floor tables) ∷ prune_scopes floor rest

-- gc(newFloor); a number that is no safe integer is thrown, `none`
unfoldable pub gc : ℕ → MemoryState → Option MemoryState
unfolding prune_scopes
gc new_floor st =
    let floor = max st.floor new_floor in
    if leb new_floor max_safe_integer
    then some (record st { scopes = prune_scopes floor st.scopes; floor = floor })
    else none
