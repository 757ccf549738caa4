-- ===== src/Sync/Controller/Tests.antt =====
-- Runs of the controller.
use remelon_db.Prelude.{◌≡◌, refl, true, some, List, [], ◌∷◌}
use remelon_db.Sync.Controller.{
  Options, Controller, created, Thrown, transport_error, default_is_auth_error,
  default_is_offline_error, threw, Event, starts, syncs_now, triggers, disposes, run_settles, steps,
}
use remelon_db.Sync.Controller.Runs.{IsSound}
use remelon_db.Sync.Controller.Sound.{controller-IsSound}
use remelon_db.Sync.Controller.Disposed.{IsStill, disposed-IsStill}

abbrev defaults : Options
defaults = record {
  is_auth_error = default_is_auth_error;
  is_offline_error = default_is_offline_error;
  has_interval = true;
}

abbrev refused : Thrown
refused = transport_error (some 401) "unauthorized" "SyncTransportError: unauthorized"

-- two manual triggers during a run coalesce, and an authentication error blocks the automatic ones
abbrev blocked_events : List Event
blocked_events =
    starts
    ∷ syncs_now
    ∷ syncs_now
    ∷ run_settles (threw refused)
    ∷ run_settles (threw refused)
    ∷ triggers
    ∷ []

blocked_runs : (steps defaults blocked_events created).started ≡ 2
unfolding steps
blocked_runs = refl

controller-IsSound_example : IsSound (steps defaults blocked_events created)
controller-IsSound_example = controller-IsSound defaults blocked_events

abbrev logged_out : Controller
logged_out = steps defaults (starts ∷ syncs_now ∷ disposes ∷ []) created

disposed-IsStill_example :
    IsStill logged_out (steps defaults (syncs_now ∷ run_settles (threw refused) ∷ []) logged_out)
unfolding steps
disposed-IsStill_example =
    disposed-IsStill defaults (syncs_now ∷ run_settles (threw refused) ∷ []) logged_out refl
