-- ===== src/Server/Memory/Revisions.antt =====
-- Revisions of the in-memory store: no row is stamped above the counter, a served maximum bounds what
-- a scope has, and rows stand under their own ids, each id once.
use remelon_db.Prelude.{
  ℕ, ◌+◌, ◌≤◌, String, ◌≡◌, refl, ◌∙◌, subst, true, false, ◌||◌, some, List, [], ◌∷◌, arith, ◌==◌,
  eq_iff, or_else, All, inl, inr, Bool-cases, Option-cases,
}
use remelon_db.Prelude.Map.{Map, get, set, keys}
use remelon_db.Prelude.Set.{member}
use remelon_db.Server.Store.{WireRow}
use remelon_db.Server.Memory.{
  Stored, Rows, MemoryState, tables_of, table_of, put_table, is_dead, upsert_rows, upsert, bury,
  tombstone_rows, tombstone,
}

-- A list of rows with distinct ids, each under its own id and stamped at most `top`.
abbrev pub AreRows : ℕ → Rows → Type 0
AreRows top [] = Unit
AreRows top ((id, stored) ∷ rest) =
    (stored.row.id ≡ id) × (stored.rev ≤ top) × (member id (keys rest) ≡ false) × AreRows top rest

abbrev pub AreTables : ℕ → Map Rows → Type 0
AreTables top tables = All (λ e. AreRows top e.1) tables

abbrev pub IsStamped : MemoryState → Type 0
IsStamped st = All (λ e. AreTables st.rev e.1) st.scopes

-- A property of all values of a map holds of what a key finds, and of the map after a write.
pub All-get {ℓ κ} :
    {V : Type ℓ} (P : V → Type κ) (k : String) (m : Map V) (d : V)
    → All (λ e. P e.1) m
    → P d
    → P (or_else (get k m) d)
unfolding get
All-get P k [] d h p = p
All-get P k ((j, v) ∷ rest) d (q, h) p = elim (Bool-cases (j == k)) [
  | inl same ↦ rw same q
  | inr other ↦ rw other (All-get P k rest d h p)
]

pub All-set {ℓ κ} :
    {V : Type ℓ} (P : V → Type κ) (k : String) (v : V) (m : Map V)
    → All (λ e. P e.1) m
    → P v
    → All (λ e. P e.1) (set k v m)
unfolding set
All-set P k v [] h p = (p, tt)
All-set P k v ((j, w) ∷ rest) (q, h) p = elim (Bool-cases (j == k)) [
  | inl same ↦ rw same (p, h)
  | inr other ↦ rw other (q, All-set P k v rest h p)
]

AreRows-mono : (top top' : ℕ) (rows : Rows) → top ≤ top' → AreRows top rows → AreRows top' rows
AreRows-mono top top' [] le h = tt
AreRows-mono top top' ((id, stored) ∷ rest) le (e, b, d, h) =
    (e, omega arith, d, AreRows-mono top top' rest le h)

AreTables-mono :
    (top top' : ℕ) (tables : Map Rows) → top ≤ top' → AreTables top tables → AreTables top' tables
AreTables-mono top top' [] le h = tt
AreTables-mono top top' ((t, rows) ∷ rest) le (r, h) =
    (AreRows-mono top top' rows le r, AreTables-mono top top' rest le h)

AreScopes_mono :
    (top top' : ℕ) (scopes : Map (Map Rows))
    → top ≤ top'
    → All (λ e. AreTables top e.1) scopes
    → All (λ e. AreTables top' e.1) scopes
AreScopes_mono top top' [] le h = tt
AreScopes_mono top top' ((s, tables) ∷ rest) le (t, h) =
    (AreTables-mono top top' tables le t, AreScopes_mono top top' rest le h)

member-keys-set :
    (id k : String) (v : Stored) (rows : Rows)
    → member id (keys (set k v rows)) ≡ member id (keys rows) || k == id
unfolding member set
member-keys-set id k v [] = ground arith
member-keys-set id k v ((j, w) ∷ rest) =
    ground (arith, member-keys-set id k v rest, eq_iff j k, eq_iff j id, eq_iff k id)

set-AreRows :
    (top : ℕ) (k : String) (v : Stored) (rows : Rows)
    → v.row.id ≡ k
    → v.rev ≤ top
    → AreRows top rows
    → AreRows top (set k v rows)
unfolding set
set-AreRows top k v [] e b h = (e, b, (unfold member in refl), tt)
set-AreRows top k v ((j, w) ∷ rest) e b (e', b', d, h) = elim (Bool-cases (j == k)) [
  | inl same ↦ rw same (e, b, subst (λ i. member i (keys rest) ≡ false) ((eq_iff j k).0 same) d, h)
  | inr other ↦ rw other (
    e',
    b',
    member-keys-set j k v rest ∙ ground (arith, d, other, eq_iff j k, eq_iff k j),
    set-AreRows top k v rest e b h,
  )
]

upsert_rows-AreRows :
    (top batch_rev : ℕ) (batch : List WireRow) (rows : Rows)
    → batch_rev ≤ top
    → AreRows top rows
    → AreRows top (upsert_rows batch_rev batch rows)
unfolding upsert_rows
upsert_rows-AreRows top b [] rows le h = h
upsert_rows-AreRows top b (row ∷ rest) rows le h = elim (Bool-cases (is_dead (get row.id rows))) [
  | inl dead ↦ rw dead (upsert_rows-AreRows top b rest rows le h)
  | inr live ↦ rw live (
      upsert_rows-AreRows top b rest _ le
        (set-AreRows top row.id (record { row = row; rev = b; deleted = false }) rows refl le h))
]

get-AreRows :
    (top : ℕ) (id : String) (rows : Rows) (stored : Stored)
    → AreRows top rows
    → get id rows ≡ some stored
    → (stored.row.id ≡ id) × (stored.rev ≤ top)
unfolding get
get-AreRows top id [] stored h e = cc
get-AreRows top id ((j, w) ∷ rest) stored (e', b', d, h) e = elim (Bool-cases (j == id)) [
  | inl same ↦ ground (arith, e, e', b', same, eq_iff j id)
  | inr other ↦ get-AreRows top id rest stored h (rw other at e)
]

bury-AreRows :
    (top batch_rev : ℕ) (id : String) (rows : Rows)
    → batch_rev ≤ top
    → AreRows top rows
    → AreRows top (bury batch_rev (get id rows) id rows)
bury-AreRows top b id rows le h = elim (Option-cases (get id rows)) [
  | inl absent ↦ rw absent h
  | inr (stored, present) ↦ elim (Bool-cases stored.deleted) [
    | inl dead ↦ rw (present, dead) h
    | inr live ↦
        rw (present, live)
          (set-AreRows top id (record stored { rev = b; deleted = true }) rows
            (get-AreRows top id rows stored h present).0 le h)
  ]
]

tombstone_rows-AreRows :
    (top batch_rev : ℕ) (ids : List String) (rows : Rows)
    → batch_rev ≤ top
    → AreRows top rows
    → AreRows top (tombstone_rows batch_rev ids rows)
unfolding tombstone_rows
tombstone_rows-AreRows top b [] rows le h = h
tombstone_rows-AreRows top b (id ∷ rest) rows le h =
    tombstone_rows-AreRows top b rest _ le (bury-AreRows top b id rows le h)

pub table_of-AreRows :
    (scope table : String) (st : MemoryState)
    → IsStamped st
    → AreRows st.rev (table_of scope table st)
table_of-AreRows scope table st h =
    All-get (AreRows st.rev) table (tables_of scope st) []
      (All-get (AreTables st.rev) scope st.scopes [] h tt) tt

-- A write of a fresh batch to one table.
put_table-IsStamped :
    (scope table : String) (rows : Rows) (st : MemoryState)
    → IsStamped st
    → AreRows (st.rev + 1) rows
    → IsStamped (put_table scope table rows (record st { rev = st.rev + 1 }))
unfolding put_table
put_table-IsStamped scope table rows st h r =
    let grown = AreScopes_mono st.rev (st.rev + 1) st.scopes (omega arith) h in
    All-set (AreTables (st.rev + 1)) scope (set table rows (tables_of scope st)) st.scopes grown (
      All-set (AreRows (st.rev + 1)) table rows (tables_of scope st)
        (All-get (AreTables (st.rev + 1)) scope st.scopes [] grown tt) r)

pub upsert-IsStamped :
    (table scope : String) (batch : List WireRow) (st : MemoryState)
    → IsStamped st
    → IsStamped (upsert table scope batch st).0
unfolding upsert
upsert-IsStamped table scope batch st h = put_table-IsStamped scope table _ st h (
    upsert_rows-AreRows (st.rev + 1) (st.rev + 1) batch (table_of scope table st) (omega arith)
      (AreRows-mono st.rev (st.rev + 1) _ (omega arith) (table_of-AreRows scope table st h)))

pub tombstone-IsStamped :
    (table scope : String) (ids : List String) (st : MemoryState)
    → IsStamped st
    → IsStamped (tombstone table scope ids st)
unfolding tombstone
tombstone-IsStamped table scope ids st h = put_table-IsStamped scope table _ st h (
    tombstone_rows-AreRows (st.rev + 1) (st.rev + 1) ids (table_of scope table st) (omega arith)
      (AreRows-mono st.rev (st.rev + 1) _ (omega arith) (table_of-AreRows scope table st h)))
