-- ===== src/Broker/State.antt =====
-- The variables of shared-worker.ts. A tab's port and a compute worker's port are numbers.
use remelon_db.Prelude.{ℕ, String, Bool, false, Option, none, List, [], ◌++◌, ◌∷◌}
use remelon_db.Prelude.Map.{Map}
use remelon_db.Broker.{Storage, Value, Request, Posted}
use remelon_db.Broker.Slots.{Slots, no_slots}
use remelon_db.Broker.Leases.{Lease}

-- Whom a request is answered to: a tab's port, with the id that the tab gave it; or the broker
-- itself, which reopens databases on a compute worker that it adopted.
pub data Asker : Type 0 where
  page : ℕ → ℕ → Asker
  reopen : ℕ → Asker

-- An item of the backlog, and the fields of a `Route` to a tab. `reads_version` is the one
-- `transform` there is, `on_failure` the name and the port of the one `undoHolder`.
pub record Pending : Type 0 where
  pub asker : Asker
  pub request : Request
  pub reads_version : Bool
  pub on_failure : Option (String × ℕ)

-- A `Route` to a tab or to a reopening, or to one of the two other ports that the broker makes
-- up: that of a ping, and that of a `releasePool` sent to a port.
pub data Route : Type 0 where
  passed : Pending → Route
  pinged : Route
  retired : ℕ → Route

-- the variables that the deadline of a ping reads
pub record Probe : Type 0 where
  pub target : ℕ
  pub answered : Bool

-- What is on its way: `nextRouteId`, `routes`, `backlog`, the pings without a deadline yet, and all
-- that was posted.
pub record Traffic : Type 0 where
  pub next_route : ℕ
  pub routes : List (ℕ × Route)
  pub backlog : List Pending
  pub probes : List (ℕ × Probe)
  pub sent : List Posted

-- `computePort` and the variables about it. `spawned` counts the calls of `new Worker`, `reopens`
-- is `reopensPending` of each adopted port while it is above zero.
pub record Compute : Type 0 where
  pub port : Option ℕ
  pub ready : Bool
  pub has_answered : Bool
  pub hosted : Option ℕ
  pub hosting_failed : Bool
  pub spawned : ℕ
  pub retiring : Option ℕ
  pub release_timer : Option ℕ
  pub reopens : List (ℕ × ℕ)
  pub last_response_at : ℕ
  pub watchdog : Bool

-- `holders`, `holderStorage` and `namesToRestore`
pub record Holding : Type 0 where
  pub holders : Map (List ℕ)
  pub storage : Map Storage
  pub to_restore : List String

pub record Recruitment : Type 0 where
  pub asked : List ℕ
  pub timer : Bool

pub record Broker : Type 0 where
  pub traffic : Traffic
  pub compute : Compute
  pub holding : Holding
  pub connected : List ℕ
  pub recruitment : Option Recruitment
  pub leases : Map Lease
  pub slots : Slots

-- What the broker calls: the constructor `Worker`, if there is one, whose n-th call returns a port
-- or throws; and JavaScript's `Number`.
pub record Env : Type 0 where
  pub new_worker : Option (ℕ → Option ℕ)
  pub to_number : Value → Value

abbrev pub no_traffic : Traffic
no_traffic = record { next_route = 1; routes = []; backlog = []; probes = []; sent = [] }

abbrev pub started : Broker
started = record {
  traffic = no_traffic;
  compute = record {
    port = none;
    ready = false;
    has_answered = false;
    hosted = none;
    hosting_failed = false;
    spawned = 0;
    retiring = none;
    release_timer = none;
    reopens = [];
    last_response_at = 0;
    watchdog = false;
  };
  holding = record { holders = []; storage = []; to_restore = [] };
  connected = [];
  recruitment = none;
  leases = [];
  slots = no_slots;
}

-- port.postMessage(message)
abbrev pub post : Posted → Traffic → Traffic
post message t = record t { sent = t.sent ++ (message ∷ []) }
