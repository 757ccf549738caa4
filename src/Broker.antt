-- ===== src/Broker.antt =====
-- The shared-worker broker, packages/driver-web/src/shared-worker.ts, and the messages of
-- protocol.ts that it reads and posts.
pub mod Slots
pub mod Leases
pub mod Changes
pub mod State
pub mod Traffic
pub mod Recruit
pub mod Epoch
pub mod Handle
pub mod Ledger
pub mod Recruiting
pub mod Tests
use remelon_db.Prelude.{ℕ, String, Bool, Option, List, Map.Map}
use remelon_db.RawRecord.{SqlValue}

-- `StorageKind`
pub data Storage : Type 0 where
  opfs memory : Storage

-- A value that crosses a port, which nobody has checked.
mutual
  pub data Value : Type 0 where
    undefined null : Value
    boolean : Bool → Value
    number : ℕ → Value
    string : String → Value
    array : Values → Value
    object : Fields → Value

  pub data Values : Type 0 where
    nil : Values
    cons : Value → Values → Values

  -- the entries of an object
  pub data Fields : Type 0 where
    empty : Fields
    field : String → Value → Fields → Fields

-- The length of a lease that a tab asks for, in whole milliseconds.
pub data LeaseMs : Type 0 where
  millis : ℕ → LeaseMs
  negative : LeaseMs
  not_finite : LeaseMs

-- `WorkerRequest`, without its id
pub data Request : Type 0 where
  open_database : String → Storage → Request
  close_database destroy_database : String → Request
  query execute : String → String → List SqlValue → Request
  execute_batch : String → List (String × List (List SqlValue)) → Request
  set_user_version : String → ℕ → Request
  ping release_pool : Request
  acquire_slot : Bool → Request
  release_slot : ℕ → Request
  publish_changes : String → Value → Request
  sync_turn : String → LeaseMs → Request

-- `WorkerResponse`, without its id
pub data Answer : Type 0 where
  done : Value → Answer
  failed : String → Answer

-- `BrokerControlMessage`
pub data Control : Type 0 where
  spawn_worker discard_worker : Control
  external_changes : String → Value → Control
  database_destroyed : String → Control

-- What the broker posts: an answer with the id that the tab gave its request, or a control, to
-- the port of a tab; or a request under the broker's own id to the compute worker's port.
pub data Posted : Type 0 where
  answered : ℕ → ℕ → Answer → Posted
  controlled : ℕ → Control → Posted
  requested : ℕ → ℕ → Request → Posted

-- answer(port, id, result)
abbrev pub answer : ℕ → ℕ → Value → Posted
answer port id result = answered port id (done result)
