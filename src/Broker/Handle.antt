-- ===== src/Broker/Handle.antt =====
-- shared-worker.ts: `handle`, the listeners of a tab's port, the timers, and sequences of these.
use remelon_db.Prelude.{
  ℕ, String, Bool, true, false, not, ◌&&◌, Option, none, some, is_some, or_else, List, [], ◌∷◌,
  ◌++◌, eqb, any, filter, is_empty, if◌then◌else◌,
}
use remelon_db.Prelude.Text.{◌+++◌}
use remelon_db.Prelude.Map.{get, set, remove}
use remelon_db.Broker.{
  Storage, opfs, memory, Value, boolean, null, object, field, empty, Request, open_database,
  close_database, destroy_database, query, acquire_slot, release_slot, publish_changes, sync_turn,
  LeaseMs, Answer, failed, external_changes, database_destroyed, discard_worker, Posted, answered,
  controlled, answer,
}
use remelon_db.Broker.Changes.{is_change_set}
use remelon_db.Broker.Leases
use remelon_db.Broker.Slots
use remelon_db.Broker.Slots.{Slots}
use remelon_db.Broker.State.{page, Pending, Traffic, Holding, Recruitment, Broker, Env, post}
use remelon_db.Broker.Recruit.{remember_port, adopt_compute_port, request_spawn, forward}
use remelon_db.Broker.Epoch.{
  on_response, probe_compute, probe_deadline, release_deadline, watch, hosting_error,
}

abbrev pub same_storage : Storage → Option Storage → Bool
same_storage opfs (some opfs) = true
same_storage memory (some memory) = true
same_storage storage held = false

abbrev pub storage_name : Storage → String
storage_name opfs = "opfs"
storage_name memory = "memory"

-- set.has(port), set.add(port), set.delete(port)
abbrev pub has_port : ℕ → List ℕ → Bool
has_port port ports = any (λ p. eqb p port) ports

abbrev pub add_port : ℕ → List ℕ → List ℕ
add_port port ports = if has_port port ports then ports else ports ++ (port ∷ [])

abbrev pub delete_port : ℕ → List ℕ → List ℕ
delete_port port ports = filter (λ p. not (eqb p port)) ports

-- holders.get(name) ?? []
abbrev pub ports_of : String → Holding → List ℕ
ports_of name h = or_else (get name h.holders) []

-- a request that is passed on as it came, for the tab that made it
abbrev pub plain : ℕ → ℕ → Request → Pending
plain port id request = record {
  asker = page port id;
  request = request;
  reads_version = false;
  on_failure = none;
}

abbrev pub storage_refusal : String → Storage → Option Storage → Answer
storage_refusal name storage held = failed (
    "database '"
    +++ name
    +++ "' is open with storage '"
    +++ storage_name (or_else held opfs)
    +++ "', not '"
    +++ storage_name storage
    +++ "'")

-- the query whose result a joiner gets; a port that already held the name stays on a failure
abbrev pub joiner : ℕ → ℕ → String → Bool → Pending
joiner port id name already = record {
  asker = page port id;
  request = query name "pragma user_version" [];
  reads_version = true;
  on_failure = if already then none else some (name, port);
}

-- the first open, which a failure undoes
abbrev pub opener : ℕ → ℕ → String → Storage → Pending
opener port id name storage = record (plain port id (open_database name storage)) {
  on_failure = some (name, port);
}

-- holders.get(name).add(port), where the set may be new
unfoldable pub with_holder : String → ℕ → Holding → Holding
unfolding get set
with_holder name port h = record h {
  holders = set name (add_port port (ports_of name h)) h.holders;
}

-- holderStorage.set(name, storage)
unfoldable pub with_storage : String → Storage → Holding → Holding
unfolding set
with_storage name storage h = record h { storage = set name storage h.storage }

-- case 'open'
unfoldable pub handle_open : Env → ℕ → ℕ → String → Storage → Broker → Broker
unfolding get with_holder with_storage forward
handle_open env port id name storage b =
    let existing = ports_of name b.holding in
    let held = get name b.holding.storage in
    if is_empty existing
    then forward env port (opener port id name storage)
        (record b { holding = with_storage name storage (with_holder name port b.holding) })
    else if not (same_storage storage held)
    then record b {
      traffic = post (answered port id (storage_refusal name storage held)) b.traffic;
    }
    else forward env port (joiner port id name (has_port port existing))
        (record b { holding = with_holder name port b.holding })

-- holders.delete(name); holderStorage.delete(name)
abbrev pub forget : String → Holding → Holding
forget name h = record h { holders = remove name h.holders; storage = remove name h.storage }

-- case 'close'
unfoldable pub handle_close : Env → ℕ → ℕ → String → Broker → Broker
unfolding get set remove forward
handle_close env port id name b =
    let left = delete_port port (ports_of name b.holding) in
    if is_empty left
    then forward env port (plain port id (close_database name))
        (record b { holding = forget name b.holding })
    else record b {
      traffic = post (answer port id null) b.traffic;
      holding = record b.holding { holders = set name left b.holding.holders };
    }

-- the loops over the holders of a name, less the port that asked
unfoldable pub tell_others : ℕ → (ℕ → Posted) → List ℕ → Traffic → Traffic
tell_others port message [] t = t
tell_others port message (holder ∷ holders) t =
    tell_others port message holders (if eqb holder port then t else post (message holder) t)

-- case 'destroy'
unfoldable pub handle_destroy : Env → ℕ → ℕ → String → Broker → Broker
unfolding get remove tell_others forward
handle_destroy env port id name b =
    forward env port (plain port id (destroy_database name)) (record b {
      traffic =
          tell_others port (λ p. controlled p (database_destroyed name)) (ports_of name b.holding)
            b.traffic;
      holding = forget name b.holding;
    })

abbrev pub changes_refusal : Answer
changes_refusal =
    failed
      "SharedWorker broker: publishChanges was given a change set that is not tables of { type, record: { id } } changes"

-- case 'publishChanges'
unfoldable pub handle_publish : ℕ → ℕ → String → Value → Broker → Broker
unfolding get is_change_set tell_others
handle_publish port id name changes b =
    let relayed =
      tell_others port (λ p. controlled p (external_changes name changes)) (ports_of name b.holding)
        b.traffic in
    if is_change_set changes
    then record b { traffic = post (answer port id null) relayed }
    else record b { traffic = post (answered port id changes_refusal) b.traffic }

-- case 'syncTurn'
unfoldable pub handle_turn : ℕ → ℕ → String → LeaseMs → ℕ → Broker → Broker
unfolding Leases.sync_turn
handle_turn port id name asked now b =
    let (leases, granted) = Leases.sync_turn port now name asked b.leases in
    record b {
      traffic = post (answer port id (object (field "granted" (boolean granted) empty))) b.traffic;
      leases = leases;
    }

unfoldable pub post_all : List Posted → Traffic → Traffic
post_all [] t = t
post_all (message ∷ messages) t = post_all messages (post message t)

-- the slots after a request, and what was posted
abbrev pub with_slots : Slots × List Posted → Broker → Broker
unfolding post_all
with_slots (slots, posts) b = record b { traffic = post_all posts b.traffic; slots = slots }

unfoldable pub handle : Env → ℕ → ℕ → Request → ℕ → Broker → Broker
unfolding Slots.acquire_slot Slots.release_slot handle_turn handle_publish handle_open handle_close
    handle_destroy forward post_all
handle env port id (acquire_slot exclusive) now b =
    with_slots (Slots.acquire_slot port id exclusive b.slots) b
handle env port id (release_slot slot) now b =
    with_slots (Slots.release_slot port id slot b.slots) b
handle env port id (sync_turn name asked) now b = handle_turn port id name asked now b
handle env port id (publish_changes name changes) now b = handle_publish port id name changes b
handle env port id (open_database name storage) now b = handle_open env port id name storage b
handle env port id (close_database name) now b = handle_close env port id name b
handle env port id (destroy_database name) now b = handle_destroy env port id name b
handle env port id request now b = forward env port (plain port id request) b

-- What happens to the broker: a tab connects, sends a request at a time, or hands over the port of
-- a worker; a worker answers a request at a time; a timer fires; a hosted worker fails.
pub data Event : Type 0 where
  connects : ℕ → Event
  asks : ℕ → ℕ → Request → ℕ → Event
  hands_over : ℕ → ℕ → Event
  responds : ℕ → ℕ → Answer → ℕ → Event
  spawn_times_out release_times_out : Event
  probe_times_out : ℕ → Event
  watchdog_fires : ℕ → Event
  hosting_fails : ℕ → Event

-- the listener of 'connect'
unfoldable pub on_connect : Env → ℕ → Broker → Broker
unfolding remember_port probe_compute request_spawn
on_connect env port b =
    let probed = probe_compute (record b { connected = remember_port port b.connected }) in
    if not (is_some probed.compute.port) && not (is_empty probed.traffic.backlog)
    then request_spawn env (some port) probed
    else probed

-- control 'adoptWorkerPort', with a transferred port
unfoldable pub on_adopt : ℕ → ℕ → Broker → Broker
unfolding adopt_compute_port
on_adopt port worker b =
    if is_some b.compute.port
    then record b { traffic = post (controlled port discard_worker) b.traffic }
    else adopt_compute_port worker b

-- the timer of a recruitment that goes on
unfoldable pub spawn_deadline : Env → Option Recruitment → Broker → Broker
unfolding request_spawn
spawn_deadline env none b = b
spawn_deadline env (some active) b =
    if active.timer && not (is_some b.compute.port) then request_spawn env none b else b

unfoldable pub step : Env → Event → Broker → Broker
unfolding on_connect remember_port handle on_adopt on_response spawn_deadline probe_deadline
    release_deadline watch hosting_error
step env (connects port) b = on_connect env port b
step env (asks port id request now) b =
    handle env port id request now (record b { connected = remember_port port b.connected })
step env (hands_over port worker) b = on_adopt port worker b
step env (responds worker id answer now) b = on_response env worker id answer now b
step env spawn_times_out b = spawn_deadline env b.recruitment b
step env (probe_times_out id) b = probe_deadline env id b
step env release_times_out b = release_deadline env b
step env (watchdog_fires now) b = watch now b
step env (hosting_fails worker) b = hosting_error env worker b

unfoldable pub run : Env → List Event → Broker → Broker
unfolding step
run env [] b = b
run env (e ∷ events) b = run env events (step env e b)
