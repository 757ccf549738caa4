-- ===== src/Sync/Controller.antt =====
-- controller.ts: the background loop around `synchronize`, as a state and what happens to it. A
-- promise that a run settles is a number.
pub mod Runs
pub mod Sound
pub mod Disposed
pub mod Tests
use remelon_db.Prelude.{
  ℕ, ◌+◌, String, Bool, true, false, not, ◌&&◌, ◌||◌, Option, none, some, List, [], ◌∷◌, ◌++◌, map,
  any, eqb, filter, is_some, if◌then◌else◌,
}
use remelon_db.Prelude.Map.{Map}
use remelon_db.Sync.Synchronize.{LeaseState, unavailable, SynchronizeResult}

pub data SyncControllerStatus : Type 0 where
  idle syncing offline error resync_needed : SyncControllerStatus

-- What `runSync` throws: a `SyncTransportError` with its status, or anything else; with its message
-- and its text.
pub data Thrown : Type 0 where
  transport_error : Option ℕ → String → String → Thrown
  other_error : String → String → Thrown

abbrev pub message_of : Thrown → String
message_of (transport_error status message text) = message
message_of (other_error message text) = message

abbrev pub text_of : Thrown → String
text_of (transport_error status message text) = text
text_of (other_error message text) = text

abbrev pub default_is_auth_error : Thrown → Bool
default_is_auth_error (transport_error (some status) message text) = eqb status 401
default_is_auth_error e = false

abbrev pub default_is_offline_error : Thrown → Bool
default_is_offline_error (transport_error none message text) = true
default_is_offline_error e = false

pub record RunSyncResult : Type 0 where
  pub lease : Option LeaseState
  pub resynced : Bool
  pub rejected : ℕ
  pub rejected_records : Map (List String)

-- the result of `createRunSync`
abbrev pub run_result : SynchronizeResult → RunSyncResult
run_result r = record {
  lease = some r.lease;
  resynced = r.resynced;
  rejected = r.rejected;
  rejected_records = r.rejected_records;
}

pub record SyncControllerState : Type 0 where
  pub status : SyncControllerStatus
  pub last_sync_at : Option ℕ
  pub message : Option String
  pub cause : Option Thrown
  pub last_result : Option RunSyncResult

-- `isAuthError`, `isOfflineError`, and whether there is an interval
pub record Options : Type 0 where
  pub is_auth_error : Thrown → Bool
  pub is_offline_error : Thrown → Bool
  pub has_interval : Bool

-- The variables of `createSyncController`. `started` and `finished` count the calls of `runSync`
-- and those that settled; `handed_out` are the promises that `syncNow` returned, and `resolved`
-- those that were resolved first, with the state; `notified` is what the listeners were told.
pub record Controller : Type 0 where
  pub state : SyncControllerState
  pub listeners : List ℕ
  pub disposed : Bool
  pub running : Bool
  pub current_run : Option ℕ
  pub queued_run : Option ℕ
  pub auth_blocked : Bool
  pub debounce_timer : Bool
  pub interval_timer : Bool
  pub in_flight : Bool
  pub subscribed : Bool
  pub next_promise : ℕ
  pub started : ℕ
  pub finished : ℕ
  pub handed_out : List ℕ
  pub resolved : List (ℕ × SyncControllerState)
  pub notified : List (ℕ × SyncControllerState)

abbrev pub idle_state : SyncControllerState
idle_state = record {
  status = idle;
  last_sync_at = none;
  message = none;
  cause = none;
  last_result = none;
}

abbrev pub created : Controller
created = record {
  state = idle_state;
  listeners = [];
  disposed = false;
  running = false;
  current_run = none;
  queued_run = none;
  auth_blocked = false;
  debounce_timer = false;
  interval_timer = false;
  in_flight = false;
  subscribed = false;
  next_promise = 0;
  started = 0;
  finished = 0;
  handed_out = [];
  resolved = [];
  notified = [];
}

-- `setState`, with the whole next state
abbrev pub set_state : SyncControllerState → Controller → Controller
set_state next c = record c {
  state = next;
  notified = c.notified ++ map (λ l. (l, next)) c.listeners;
}

unfoldable pub is_resolved : ℕ → List (ℕ × SyncControllerState) → Bool
is_resolved p [] = false
is_resolved p (e ∷ settled) = eqb e.0 p || is_resolved p settled

-- what was resolved, after resolve(state): only the first counts
unfoldable pub add_resolved :
    Option ℕ → SyncControllerState → List (ℕ × SyncControllerState) → List (ℕ × SyncControllerState)
unfolding is_resolved
add_resolved none state settled = settled
add_resolved (some p) state settled =
    if is_resolved p settled then settled else (p, state) ∷ settled

abbrev pub resolve : Option ℕ → Controller → Controller
resolve o c = record c { resolved = add_resolved o c.state c.resolved }

-- `run(settled)`, where nothing runs and the controller lives
abbrev pub start_run : ℕ → Controller → Controller
start_run p c =
    set_state (record c.state { status = syncing })
      (record c { running = true; current_run = some p; in_flight = true; started = c.started + 1 })

-- `run()` with a promise of its own: the promise that it returns, unless the controller is disposed
unfoldable pub run : Controller → Controller × Option ℕ
run c =
    let p = c.next_promise in
    let fresh = record c { next_promise = p + 1 } in
    if c.disposed
    then (c, none)
    else if not c.running
    then (start_run p fresh, some p)
    else elim c.queued_run [
      | none ↦ (record fresh { queued_run = some p }, some p)
      | some q ↦ (c, some q)
    ]

-- the state after a run that returned
abbrev pub succeeded : RunSyncResult → ℕ → SyncControllerState → SyncControllerState
succeeded result now s = record {
  status = if result.resynced then resync_needed else idle;
  last_sync_at = elim result.lease [ some unavailable ↦ s.last_sync_at | _ ↦ some now ];
  message = none;
  cause = none;
  last_result = some result;
}

-- how a run ends
pub data RunEnd : Type 0 where
  returned : RunSyncResult → ℕ → RunEnd
  threw : Thrown → RunEnd

-- the handlers of `execution.then`
unfoldable pub on_end : Options → RunEnd → Controller → Controller
on_end options (returned result now) c =
    if c.disposed then c else set_state (succeeded result now c.state) c
on_end options (threw e) c =
    if c.disposed
    then c
    else if options.is_auth_error e
    then set_state
        (record c.state { status = error; message = some (message_of e); cause = some e })
        (record c { auth_blocked = true })
    else if options.is_offline_error e
    then set_state
        (record c.state { status = offline; message = some (message_of e); cause = some e }) c
    else set_state (record c.state { status = error; message = some (text_of e); cause = some e }) c

-- `finally`: the promise of the run is resolved, and a queued run starts
unfoldable pub finally : Controller → Controller
unfolding add_resolved
finally c =
    let ended = resolve c.current_run (record c {
      running = false;
      in_flight = false;
      current_run = none;
      finished = c.finished + 1;
    }) in
    let emptied = record ended { queued_run = none } in
    elim c.queued_run [
      | none ↦ emptied
      | some p ↦ if c.disposed then emptied else start_run p emptied
    ]

-- `autoTrigger`, of the interval, the platform and the debounce timer
unfoldable pub auto_trigger : Controller → Controller
unfolding run
auto_trigger c = if c.disposed || c.auth_blocked then c else (run c).0

unfoldable pub start : Options → Controller → Controller
unfolding run
start options c =
    let wired = record c {
      subscribed = true;
      interval_timer = c.interval_timer || options.has_interval;
    } in
    if c.disposed then c else (run wired).0

unfoldable pub notify_local_write : Controller → Controller
notify_local_write c =
    if c.disposed || c.auth_blocked then c else record c { debounce_timer = true }

-- the debounce timer, if it was not cleared
unfoldable pub debounced : Controller → Controller
unfolding auto_trigger
debounced c = if c.debounce_timer then auto_trigger (record c { debounce_timer = false }) else c

abbrev pub hand_out : Controller × Option ℕ → Controller
hand_out (c, none) = c
hand_out (c, some p) = record c { handed_out = p ∷ c.handed_out }

unfoldable pub sync_now : Controller → Controller
unfolding run
sync_now c = if c.disposed then c else hand_out (run (record c { auth_blocked = false }))

unfoldable pub dispose : Controller → Controller
unfolding add_resolved
dispose c =
    let settled = resolve c.queued_run (resolve c.current_run (record c { disposed = true })) in
    record settled {
      queued_run = none;
      debounce_timer = false;
      interval_timer = false;
      subscribed = false;
      listeners = [];
    }

-- a run that was started settles
unfoldable pub settle : Options → RunEnd → Controller → Controller
unfolding on_end finally
settle options how c = if c.running then finally (on_end options how c) else c

-- What happens to the controller.
pub data Event : Type 0 where
  starts local_write_happens syncs_now disposes triggers debounce_fires : Event
  subscribes unsubscribes : ℕ → Event
  run_settles : RunEnd → Event

unfoldable pub step : Options → Event → Controller → Controller
unfolding start notify_local_write sync_now dispose auto_trigger debounced settle
step options starts c = start options c
step options local_write_happens c = notify_local_write c
step options syncs_now c = sync_now c
step options disposes c = dispose c
step options triggers c = auto_trigger c
step options debounce_fires c = debounced c
step options (subscribes l) c = record c {
  listeners = c.listeners ++ (l ∷ []);
  notified = c.notified ++ ((l, c.state) ∷ []);
}
step options (unsubscribes l) c = record c { listeners = filter (λ k. not (eqb k l)) c.listeners }
step options (run_settles how) c = settle options how c

unfoldable pub steps : Options → List Event → Controller → Controller
unfolding step
steps options [] c = c
steps options (e ∷ events) c = steps options events (step options e c)
