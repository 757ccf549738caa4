-- ===== src/Server/Memory/Collect.antt =====
-- What the in-memory store reports: `changedSince`, `maxRev` and `gc`.
use remelon_db.Prelude.{
  ℕ, ◌≤◌, ◌<◌, String, ◌≡◌, refl, Bool, false, ◌&&◌, Option, none, some, [], ◌∷◌, arith, ◌==◌,
  eq_iff, max, ltb, leb, or_else, All, inl, inr, Bool-cases, if◌then◌else◌,
}
use remelon_db.Prelude.Map.{Map, get, keys}
use remelon_db.Prelude.Set.{member}
use remelon_db.Server.Cursor.{max_safe_integer}
use remelon_db.Server.Engine.Reply.Laws.{IsFiled, change_ids}
use remelon_db.Server.Memory.{
  Stored, Rows, MemoryState, tables_of, table_of, changes_above, changed_since, max_of_rows,
  max_of_tables, max_rev,
}
use remelon_db.Server.Memory.Rows.{row_at}
use remelon_db.Server.Memory.Revisions.{AreRows, AreTables, IsStamped, table_of-AreRows, All-get}

-- The row exists and its revision is above `since`.
abbrev pub is_newer : ℕ → Option Stored → Bool
is_newer since none = false
is_newer since (some stored) = ltb since stored.rev

absent_of_keys : (id : String) (rows : Rows) → member id (keys rows) ≡ false → get id rows ≡ none
unfolding member get
absent_of_keys id [] h = refl
absent_of_keys id ((j, w) ∷ rest) h = ground (arith, absent_of_keys id rest)

changes_above_lem :
    (top since : ℕ) (rows : Rows) (id : String)
    → AreRows top rows
    → member id (change_ids (changes_above since rows)) ≡ is_newer since (get id rows)
unfolding changes_above member get
changes_above_lem top since [] id h = refl
changes_above_lem top since ((j, w) ∷ rest) id (e, b, d, h) = ground (
  arith,
  changes_above_lem top since rest id h,
  e,
  d,
  absent_of_keys j rest,
  eq_iff j id,
  eq_iff w.row.id id,
)

changes_above-IsFiled : (since : ℕ) (rows : Rows) → All IsFiled (changes_above since rows)
unfolding changes_above
changes_above-IsFiled since [] = tt
changes_above-IsFiled since ((id, w) ∷ rest) = elim (Bool-cases (leb w.rev since)) [
  | inl old ↦ rw old (changes_above-IsFiled since rest)
  | inr new ↦ rw new (filed w, changes_above-IsFiled since rest)
]
  where
    filed :
        (w : Stored)
        → IsFiled
            (record { id = w.row.id; rev = w.rev; row = if w.deleted then none else some w.row })
    filed w = elim (Bool-cases w.deleted) [ inl dead ↦ rw dead tt | inr live ↦ rw live refl ]

-- Each reported change stands under the id of its row.
pub changed_since-IsFiled :
    (table scope : String) (since : ℕ) (st : MemoryState)
    → All IsFiled (changed_since table scope since st)
unfolding changed_since
changed_since-IsFiled table scope since st = changes_above-IsFiled since (table_of scope table st)

-- The changes since a revision name exactly the rows, live or tombstones, with a greater one.
pub changed_since_lem :
    (table scope : String) (since : ℕ) (st : MemoryState) (id : String)
    → IsStamped st
    → member id (change_ids (changed_since table scope since st))
      ≡ is_newer since (row_at scope table id st)
unfolding changed_since
changed_since_lem table scope since st id h =
    changes_above_lem st.rev since (table_of scope table st) id (table_of-AreRows scope table st h)

-- `max_of_rows` is above its start and every row.
max_of_rows_bound :
    (top : ℕ) (rows : Rows)
    → (top ≤ max_of_rows top rows) × All (λ e. e.1.rev ≤ max_of_rows top rows) rows
unfolding max_of_rows
max_of_rows_bound top [] = (omega arith, tt)
max_of_rows_bound top ((id, w) ∷ rest) =
    let next : ℕ = if ltb top w.rev then w.rev else top in
    let (above, others) = max_of_rows_bound next rest in
    (ground (arith, above), (ground (arith, above), others))

max_of_rows_le :
    (top bound : ℕ) (rows : Rows) → top ≤ bound → AreRows bound rows → max_of_rows top rows ≤ bound
unfolding max_of_rows
max_of_rows_le top bound [] le h = le
max_of_rows_le top bound ((id, w) ∷ rest) le (e, b, d, h) =
    max_of_rows_le (if ltb top w.rev then w.rev else top) bound rest (ground arith) h

max_of_tables_le :
    (top bound : ℕ) (tables : Map Rows)
    → top ≤ bound
    → AreTables bound tables
    → max_of_tables top tables ≤ bound
unfolding max_of_tables
max_of_tables_le top bound [] le h = le
max_of_tables_le top bound ((t, rows) ∷ rest) le (r, h) =
    max_of_tables_le (max_of_rows top rows) bound rest (max_of_rows_le top bound rows le r) h

max_of_tables_above : (top : ℕ) (tables : Map Rows) → top ≤ max_of_tables top tables
unfolding max_of_tables
max_of_tables_above top [] = omega arith
max_of_tables_above top ((t, rows) ∷ rest) =
    let step = (max_of_rows_bound top rows).0 in
    omega (arith, step, max_of_tables_above (max_of_rows top rows) rest)

get_bound :
    (bound : ℕ) (rows : Rows) (id : String) (stored : Stored)
    → All (λ e. e.1.rev ≤ bound) rows
    → get id rows ≡ some stored
    → stored.rev ≤ bound
unfolding get
get_bound bound [] id stored h e = cc
get_bound bound ((j, w) ∷ rest) id stored (b, h) e = elim (Bool-cases (j == id)) [
  | inl same ↦ ground (arith, e, b, same)
  | inr other ↦ get_bound bound rest id stored h (rw other at e)
]

max_of_tables_bound :
    (top : ℕ) (tables : Map Rows) (table id : String) (stored : Stored)
    → get id (or_else (get table tables) []) ≡ some stored
    → stored.rev ≤ max_of_tables top tables
unfolding max_of_tables get
max_of_tables_bound top [] table id stored e = cc
max_of_tables_bound top ((t, rows) ∷ rest) table id stored e = elim (Bool-cases (t == table)) [
  | inl same ↦
      let here = get_bound _ rows id stored (max_of_rows_bound top rows).1 (rw same at e) in
      omega (arith, here, max_of_tables_above (max_of_rows top rows) rest)
  | inr other ↦ max_of_tables_bound (max_of_rows top rows) rest table id stored (rw other at e)
]

-- The served maximum is at most the revision counter and at least the revision of every row of the
-- scope.
pub max_rev_lem :
    (scope : String) (st : MemoryState)
    → IsStamped st
    → (max_rev scope st ≤ st.rev)
      × ((table id : String) (stored : Stored)
          → row_at scope table id st ≡ some stored
          → stored.rev ≤ max_rev scope st)
unfolding max_rev
max_rev_lem scope st h = (
  max_of_tables_le 0 st.rev (tables_of scope st) (omega arith) (scope_tables scope st.scopes h),
  λ table id stored e. max_of_tables_bound 0 (tables_of scope st) table id stored e,
)
  where
    scope_tables :
        (k : String) (m : Map (Map Rows))
        → All (λ e. AreTables st.rev e.1) m
        → AreTables st.rev (or_else (get k m) [])
    scope_tables k m h = All-get (AreTables st.rev) k m [] h tt

-- A row that `gc` with this floor removes.
abbrev pub is_pruned : ℕ → Stored → Bool
is_pruned floor stored = stored.deleted && leb stored.rev floor

abbrev pub survivor : ℕ → Option Stored → Option Stored
survivor floor none = none
survivor floor (some stored) = if is_pruned floor stored then none else some stored

-- What `gc` with this floor returns: nothing for a floor that is not a safe integer, and else a state.
abbrev pub IsCollected : ℕ → MemoryState → Option MemoryState → Type 0
IsCollected new_floor st none = max_safe_integer < new_floor
IsCollected new_floor st (some st') =
    (new_floor ≤ max_safe_integer)
    × (st'.floor ≡ max st.floor new_floor)
    × (st'.rev ≡ st.rev)
    × ((scope table id : String)
        → row_at scope table id st' ≡ survivor st'.floor (row_at scope table id st))
