-- ===== src/Broker/Epoch.antt =====
-- shared-worker.ts: the answers of the compute worker, and its replacement when it is silent.
use remelon_db.Prelude.{
  ℕ, ◌-◌, String, Bool, true, false, not, ◌||◌, ◌&&◌, Option, none, some, is_some, List, [], ◌∷◌,
  ◌++◌, eqb, leb, filter, is_empty, if◌then◌else◌,
}
use remelon_db.Prelude.Map.{keys}
use remelon_db.Prelude.Set.{member}
use remelon_db.Prelude.Ids.{get_at, set_at, remove_at}
use remelon_db.Broker.{
  Value, undefined, null, number, array, object, cons, empty, field, Request, open_database, ping,
  release_pool, Answer, done, failed,
}
use remelon_db.Broker.Changes.{member_at}
use remelon_db.Broker.State.{Pending, Route, passed, pinged, retired, Probe, Broker, Env}
use remelon_db.Broker.Traffic.{dispatch, post_to, undo}
use remelon_db.Broker.Recruit.{stop_recruitment, restart_recruitment}

abbrev pub same_port : Option ℕ → ℕ → Bool
same_port none port = false
same_port (some p) port = eqb p port

-- user work, not the bookkeeping of pings and retirements
abbrev pub is_work : Request → Bool
is_work ping = false
is_work release_pool = false
is_work request = true

-- the routes whose requests are to be replayed
unfoldable pub stranded : List (ℕ × Route) → List Pending
stranded [] = []
stranded ((id, passed p) ∷ routes) =
    if is_work p.request then p ∷ stranded routes else stranded routes
stranded ((id, pinged) ∷ routes) = stranded routes
stranded ((id, retired target) ∷ routes) = stranded routes

-- the names that the requests open
unfoldable pub opened_names : List Pending → List String
opened_names [] = []
opened_names (p ∷ items) = elim p.request [
  | open_database name storage ↦ name ∷ opened_names items
  | _ ↦ opened_names items
]

-- the state of `finishEpochReset` before a new worker is looked for
unfoldable pub requeue : Broker → Broker
unfolding stranded opened_names member
requeue b =
    let pending = stranded b.traffic.routes in
    let replayed = opened_names (pending ++ b.traffic.backlog) in
    stop_recruitment (record b {
      traffic = record b.traffic { routes = []; backlog = pending ++ b.traffic.backlog };
      compute = record b.compute {
        port = none;
        ready = false;
        hosted = none;
        retiring = none;
        release_timer = none;
      };
      holding = record b.holding {
        to_restore = filter (λ name. not (member name replayed)) (keys b.holding.holders);
      };
    })

-- `finishEpochReset`
unfoldable pub finish_epoch_reset : Env → ℕ → Broker → Broker
unfolding requeue restart_recruitment
finish_epoch_reset env target b =
    let reset = requeue b in
    if not (same_port b.compute.port target)
    then b
    else if is_empty reset.traffic.backlog
    then reset
    else restart_recruitment env none reset

-- `resetEpoch`, for the port of the compute worker
unfoldable pub reset_port : Env → ℕ → Broker → Broker
unfolding finish_epoch_reset set_at
reset_port env target b =
    if same_port b.compute.retiring target
    then b
    else if not (is_some b.compute.hosted)
    then finish_epoch_reset env target b
    else record b {
      traffic = dispatch (some target) (retired target) release_pool b.traffic;
      compute = record b.compute {
        ready = false;
        retiring = some target;
        release_timer = some target;
      };
    }

unfoldable pub reset_epoch : Env → Broker → Broker
unfolding reset_port
reset_epoch env b = elim b.compute.port [ none ↦ b | some target ↦ reset_port env target b ]

-- the transform of a joiner's query: `{ userVersion: Number(rows[0]?.user_version ?? 0) }`; the
-- worker answers a query with an array of rows
abbrev pub first_row : Value → Value
first_row (array (cons row rows)) = row
first_row rows = undefined

abbrev pub version_column : Value → Value
version_column (object fields) = elim (member_at "user_version" fields) [
  | undefined ↦ number 0
  | null ↦ number 0
  | v ↦ v
]
version_column row = number 0

unfoldable pub user_version : Env → Value → Value
user_version env rows =
    object (field "userVersion" (env.to_number (version_column (first_row rows))) empty)

unfoldable pub transformed : Env → Bool → Answer → Answer
unfolding user_version
transformed env true (done result) = done (user_version env result)
transformed env reads answer = answer

-- `if (!response.ok) route.onFailure?.()`
unfoldable pub settle : Pending → Answer → Broker → Broker
unfolding undo
settle p (done result) b = b
settle p (failed error) b = undo p.on_failure b

abbrev pub mark_answered : Probe → Probe
mark_answered probe = record probe { answered = true }

-- what the port of a route does with the answer
unfoldable pub deliver : Env → ℕ → Route → Answer → Broker → Broker
unfolding transformed settle post_to finish_epoch_reset get_at set_at
deliver env id (passed p) answer b =
    post_to p.asker (transformed env p.reads_version answer) (settle p answer b)
deliver env id pinged answer b = elim (get_at id b.traffic.probes) [
  | none ↦ b
  | some probe ↦ record b {
    traffic = record b.traffic { probes = set_at id (mark_answered probe) b.traffic.probes };
  }
]
deliver env id (retired target) answer b = finish_epoch_reset env target b

-- releases a hosted worker when nothing is open and nothing is pending
unfoldable pub release_idle : Env → Broker → Broker
unfolding reset_epoch
release_idle env b =
    if is_some b.compute.hosted
      && (is_empty b.holding.holders && (is_empty b.traffic.routes && is_empty b.traffic.backlog))
    then reset_epoch env b
    else b

-- the listener on a compute worker's port
unfoldable pub on_response : Env → ℕ → ℕ → Answer → ℕ → Broker → Broker
unfolding get_at remove_at deliver release_idle
on_response env port id answer now b =
    let heard =
      if same_port b.compute.port port
      then record b { compute = record b.compute { has_answered = true } }
      else b in
    elim (get_at id b.traffic.routes) [
      | none ↦ heard
      | some route ↦ release_idle env (
          deliver env id route answer (record heard {
            traffic = record b.traffic { routes = remove_at id b.traffic.routes };
            compute = record heard.compute { last_response_at = now };
          }))
    ]

-- `probeCompute`, for the port of the compute worker
unfoldable pub probe_port : ℕ → Broker → Broker
unfolding set_at
probe_port target b =
    let probe : Probe = record { target = target; answered = false } in
    let sent = dispatch (some target) pinged ping b.traffic in
    if same_port b.compute.retiring target then b else record b {
      traffic = record sent { probes = set_at b.traffic.next_route probe sent.probes };
    }

unfoldable pub probe_compute : Broker → Broker
unfolding probe_port
probe_compute b = elim b.compute.port [ none ↦ b | some target ↦ probe_port target b ]

-- the deadline of a ping
unfoldable pub probe_deadline : Env → ℕ → Broker → Broker
unfolding get_at remove_at reset_epoch
probe_deadline env id b = elim (get_at id b.traffic.probes) [
  | none ↦ b
  | some probe ↦
      let passed = record b {
        traffic = record b.traffic {
          routes = remove_at id b.traffic.routes;
          probes = remove_at id b.traffic.probes;
        };
      } in
      if not probe.answered && same_port b.compute.port probe.target
      then reset_epoch env passed
      else passed
]

-- the deadline of a `releasePool`
unfoldable pub release_deadline : Env → Broker → Broker
unfolding finish_epoch_reset
release_deadline env b = elim b.compute.release_timer [
  | none ↦ b
  | some target ↦ finish_epoch_reset env target b
]

-- the timer of `scheduleWatchdog`
unfoldable pub watch : ℕ → Broker → Broker
unfolding probe_compute
watch now b =
    let off = record b { compute = record b.compute { watchdog = false } } in
    let probed = if leb 2000 (now - b.compute.last_response_at) then probe_compute off else off in
    if not b.compute.watchdog
    then b
    else if not (is_some b.compute.port) || is_empty b.traffic.routes
    then off
    else record probed { compute = record probed.compute { watchdog = true } }

-- the error listener of a hosted worker
unfoldable pub hosting_error : Env → ℕ → Broker → Broker
unfolding restart_recruitment
hosting_error env port b =
    if same_port b.compute.hosted port
    then restart_recruitment env none (record b {
      compute = record b.compute { hosting_failed = true; hosted = none; port = none };
    })
    else b
