-- ===== src/Server/Memory/Rows.antt =====
-- What the writes of the in-memory store do to every row of every scope and table.
use remelon_db.Prelude.{
  ℕ, ◌+◌, String, ◌≡◌, refl, ◌∙◌, Bool, true, false, ◌&&◌, Option, none, some, List, [], ◌∷◌, arith,
  ◌==◌, eq_iff, inl, inr, Option-cases, if◌then◌else◌,
}
use remelon_db.Prelude.Map.{get, set, get-set}
use remelon_db.Prelude.Set.{member}
use remelon_db.Server.Store.{WireRow}
use remelon_db.Server.Memory.{
  Stored, Rows, MemoryState, tables_of, table_of, put_table, is_dead, upsert_rows, upsert, bury,
  tombstone_rows, tombstone,
}

-- The state of one row.
abbrev pub row_at : String → String → String → MemoryState → Option Stored
row_at scope table id st = get id (table_of scope table st)

-- The last of the rows with this id.
unfoldable pub last_stated : String → List WireRow → Option WireRow
last_stated id [] = none
last_stated id (row ∷ rest) = elim (last_stated id rest) [
  | some later ↦ some later
  | none ↦ if row.id == id then some row else none
]

abbrev pub revised : ℕ → Option WireRow → Option Stored → Option Stored
revised batch_rev none old = old
revised batch_rev (some row) old =
    if is_dead old then old else some (record { row = row; rev = batch_rev; deleted = false })

abbrev pub buried : ℕ → Option Stored → Option Stored
buried batch_rev none = none
buried batch_rev (some stored) =
    some (if stored.deleted then stored else record stored { rev = batch_rev; deleted = true })

-- A batch stores the last statement of each id at the batch's revision, unless the id is a tombstone.
pub get-upsert_rows :
    (batch_rev : ℕ) (batch : List WireRow) (rows : Rows) (id : String)
    → get id (upsert_rows batch_rev batch rows)
      ≡ revised batch_rev (last_stated id batch) (get id rows)
unfolding upsert_rows last_stated
get-upsert_rows batch_rev [] rows id = refl
get-upsert_rows batch_rev (row ∷ rest) rows id =
    let stored : Stored = record { row = row; rev = batch_rev; deleted = false } in
    let rows' : Rows = if is_dead (get row.id rows) then rows else set row.id stored rows in
    ground (
      arith,
      get-upsert_rows batch_rev rest rows' id,
      get-set row.id id stored rows,
      eq_iff row.id id,
    )

get-bury :
    (batch_rev : ℕ) (i id : String) (rows : Rows)
    → get id (bury batch_rev (get i rows) i rows)
      ≡ (if i == id then buried batch_rev (get id rows) else get id rows)
get-bury batch_rev i id rows = elim (Option-cases (get i rows)) [
  | inl absent ↦ ground (arith, absent, eq_iff i id)
  | inr (stored, present) ↦ ground (
    arith,
    present,
    eq_iff i id,
    get-set i id (record stored { rev = batch_rev; deleted = true }) rows,
  )
]

-- The ids of a batch of deletions that are live become tombstones at the batch's revision.
pub get-tombstone_rows :
    (batch_rev : ℕ) (ids : List String) (rows : Rows) (id : String)
    → get id (tombstone_rows batch_rev ids rows)
      ≡ (if member id ids then buried batch_rev (get id rows) else get id rows)
unfolding tombstone_rows member
get-tombstone_rows batch_rev [] rows id = refl
get-tombstone_rows batch_rev (i ∷ rest) rows id =
    rw
      (
        get-tombstone_rows batch_rev rest (bury batch_rev (get i rows) i rows) id,
        get-bury batch_rev i id rows,
      )
      (ground (arith, eq_iff i id))

pub row_at-put_table :
    (scope table : String) (rows : Rows) (st : MemoryState) (sc t id : String)
    → row_at sc t id (put_table scope table rows st)
      ≡ (if scope == sc && table == t then get id rows else row_at sc t id st)
unfolding put_table
row_at-put_table scope table rows st sc t id = ground (
  arith,
  get-set scope sc (set table rows (tables_of scope st)) st.scopes,
  get-set table t rows (tables_of scope st),
  eq_iff scope sc,
)

module _ (scope table : String) (st : MemoryState) where
  -- An upsert gives each id that it states its last row at a fresh revision, leaves tombstones and
  -- all other rows of all scopes and tables as they were, and refuses nothing.
  pub upsert_lem :
      (batch : List WireRow) (sc t id : String)
      → (row_at sc t id (upsert table scope batch st).0 ≡ (
          if scope == sc && table == t
          then revised (st.rev + 1) (last_stated id batch) (row_at sc t id st)
          else row_at sc t id st))
        × ((upsert table scope batch st).1 ≡ [])
        × ((upsert table scope batch st).0.rev ≡ st.rev + 1)
  unfolding upsert put_table
  upsert_lem batch sc t id = (
    row_at-put_table scope table (upsert_rows (st.rev + 1) batch (table_of scope table st))
          (record st { rev = st.rev + 1 }) sc t id
        ∙ rw (get-upsert_rows (st.rev + 1) batch (table_of scope table st) id)
            (ground (arith, eq_iff scope sc, eq_iff table t)),
    refl,
    refl,
  )

  -- A tombstone batch buries the live rows that it names at a fresh revision and leaves all other
  -- rows of all scopes and tables as they were.
  pub tombstone_lem :
      (ids : List String) (sc t id : String)
      → (row_at sc t id (tombstone table scope ids st) ≡ (
          if scope == sc && table == t && member id ids
          then buried (st.rev + 1) (row_at sc t id st)
          else row_at sc t id st))
        × ((tombstone table scope ids st).rev ≡ st.rev + 1)
  unfolding tombstone put_table
  tombstone_lem ids sc t id = (
    row_at-put_table scope table (tombstone_rows (st.rev + 1) ids (table_of scope table st))
          (record st { rev = st.rev + 1 }) sc t id
        ∙ rw (get-tombstone_rows (st.rev + 1) ids (table_of scope table st) id)
            (ground (arith, eq_iff scope sc, eq_iff table t)),
    refl,
  )

-- A row that is dead stays dead through either write.
pub revised_dead :
    (b : Bool) (batch_rev : ℕ) (row : Option WireRow) (old : Option Stored)
    → is_dead old ≡ true
    → is_dead (if b then revised batch_rev row old else old) ≡ true
revised_dead b batch_rev row none h = cc
revised_dead b batch_rev row (some old) h = ground (arith, h)

pub buried_dead :
    (b : Bool) (batch_rev : ℕ) (old : Option Stored)
    → is_dead old ≡ true
    → is_dead (if b then buried batch_rev old else old) ≡ true
buried_dead b batch_rev none h = cc
buried_dead b batch_rev (some old) h = ground (arith, h)
