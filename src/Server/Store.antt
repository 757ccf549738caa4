-- ===== src/Server/Store.antt =====
-- packages/server/src/store.ts: the storage seam. A store is a state and the operations of
-- `SyncStoreTx`; a transaction runs on one consistent snapshot, so reads are functions of the state
-- and writes return the next one.
use remelon_db.Prelude.{ℕ, String, Option, List, map}
use remelon_db.Prelude.Map.{Map}
use remelon_db.Wire.{DirtyRaw}

-- `WireRow`: a raw object whose `id` has been found to be a non-empty string.
pub record WireRow : Type 0 where
  pub id : String
  pub raw : DirtyRaw

pub record StoredChange : Type 0 where
  pub id : String
  pub rev : ℕ
  pub row : Option WireRow

abbrev pub row_ids : List WireRow → List String
row_ids rows = map (λ r. r.id) rows

pub record SyncStore (Scope : Type 0) : Type 1 where
  pub State : Type 0
  pub changed_since : String → Scope → ℕ → State → List StoredChange
  pub max_rev : Scope → State → ℕ
  pub current_revs : String → Scope → List String → State → Map ℕ
  pub foreign_ids : String → Scope → List String → State → List String
  pub tombstoned_ids : String → Scope → List String → State → List String
  -- the new state, and the ids that the storage refused
  pub upsert : String → Scope → List WireRow → State → State × List String
  pub tombstone : String → Scope → List String → State → State
  pub gc_floor : State → ℕ
