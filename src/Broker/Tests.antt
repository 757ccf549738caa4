-- ===== src/Broker/Tests.antt =====
-- Runs of the broker on small inputs, and the theorems at concrete ones.
use remelon_db.Prelude.{◌≤◌, ◌<◌, ◌≡◌, refl, true, false, none, some, List, [], ◌∷◌, arith, length}
use remelon_db.Prelude.Map.{get}
use remelon_db.Prelude.Ids.{get_at, set_at}
use remelon_db.Broker.{
  opfs, null, open_database, query, millis, not_finite, done, requested, controlled, spawn_worker,
}
use remelon_db.Broker.Leases.Exclusive.{
  Turn, granted, is_foreign, refused, run_turns, after_turn, sync_turn_excludes,
}
use remelon_db.Broker.Slots
use remelon_db.Broker.Slots.{Slot, Slots, no_slots}
use remelon_db.Broker.Slots.Exclusion.{IsSafe}
use remelon_db.Broker.Slots.Lock.{AreServed, lock_of}
use remelon_db.Broker.Slots.Owner.{slot-kept}
use remelon_db.Broker.Slots.Runs.{
  SlotEvent, acquires, releases, run_slots, lock_requests, slots_run-IsSafe, slots_run-refines,
}
use remelon_db.Broker.State.{Env, started}
use remelon_db.Broker.Recruit.{remember_port, find_asker, reverse}
use remelon_db.Broker.Recruit.Memory.{is_unique, remember_port_bounds}
use remelon_db.Broker.Recruiting.{IsOver, silences, recruitment_ends}
use remelon_db.Broker.Handle.{Event, connects, asks, hands_over, responds, hosting_fails, run}
use remelon_db.Broker.Ledger.Events.{times_asked, broker_accounts}
use remelon_db.Broker.Ledger.Posting.{ledger}

-- a browser whose shared workers have no `Worker`
abbrev tabs_only : Env
tabs_only = record { new_worker = none; to_number = λ v. v }

-- one whose first worker can be made in the shared worker
abbrev hosting : Env
hosting = record { new_worker = some (λ n. some 100); to_number = λ v. v }

-- two tabs ask for slots: a reader, a writer, and a reader behind it
abbrev slot_events : List SlotEvent
slot_events =
    acquires 1 1 false
    ∷ acquires 2 1 true
    ∷ acquires 1 2 false
    ∷ releases 2 2 1
    ∷ releases 1 3 1
    ∷ []

slots_after :
    (run_slots slot_events no_slots).held_slots ≡ (2, record { exclusive = true; owner = 2 }) ∷ []
unfolding run_slots set_at
slots_after = refl

slots_run-IsSafe_example : IsSafe (run_slots slot_events no_slots)
slots_run-IsSafe_example = slots_run-IsSafe slot_events

slots_run-refines_example :
    AreServed
      (lock_requests slot_events no_slots)
      (lock_of no_slots)
      (lock_of (run_slots slot_events no_slots))
slots_run-refines_example = slots_run-refines slot_events

slot-kept_example :
    (get_at 2 (Slots.acquire_slot 1 9 false (run_slots slot_events no_slots)).0.held_slots
      ≡ some (record { exclusive = true; owner = 2 }))
    × (get_at 2 (Slots.release_slot 1 9 2 (run_slots slot_events no_slots)).0.held_slots
        ≡ some (record { exclusive = true; owner = 2 }))
unfolding run_slots get_at set_at
slot-kept_example =
    slot-kept 1 9 2 2 false (record { exclusive = true; owner = 2 })
      (run_slots slot_events no_slots) (slots_run-IsSafe slot_events) refl refl

abbrev first_turn : Turn
first_turn = record { port = 1; name = "db"; asked = not_finite; now = 1000 }

abbrev other_turn : Turn
other_turn = record { port = 2; name = "db"; asked = millis 500; now = 300999 }

sync_turn_excludes_example :
    (1000 < 301000)
    × (301000 ≤ 301000)
    × (refused "db" (other_turn ∷ []) (after_turn first_turn []) ≡ true)
    × (get "db" (run_turns (other_turn ∷ []) (after_turn first_turn []))
        ≡ some (record { port = 1; expires_at = 301000 }))
unfolding granted is_foreign get
sync_turn_excludes_example = sync_turn_excludes first_turn (other_turn ∷ []) [] refl refl

remember_port_bounds_example :
    (is_unique (remember_port 3 (3 ∷ 1 ∷ [])) ≡ true)
    × (length (remember_port 3 (3 ∷ 1 ∷ [])) ≤ 8)
    × (find_asker [] (reverse (remember_port 3 (3 ∷ 1 ∷ []))) ≡ some 3)
unfolding is_unique
remember_port_bounds_example = remember_port_bounds 3 (3 ∷ 1 ∷ []) refl (omega arith)

abbrev opening : List Event
opening = connects 1 ∷ connects 2 ∷ asks 1 1 (open_database "db" opfs) 0 ∷ []

recruitment_ends_example : IsOver (run tabs_only (silences 3) (run tabs_only opening started))
unfolding run
recruitment_ends_example =
    recruitment_ends tabs_only (1 ∷ []) (run tabs_only opening started) refl
      (record { no_compute = refl; active = refl })

-- a tab opens a database, its worker is handed over and is lost with a query
abbrev replaced : List Event
replaced =
    connects 1
    ∷ asks 1 1 (open_database "db" opfs) 0
    ∷ hands_over 1 50
    ∷ responds 50 1 (done null) 10
    ∷ asks 1 2 (query "db" "select 1" []) 20
    ∷ connects 2
    ∷ []

broker_accounts_example : ledger 1 2 (run tabs_only replaced started) ≡ times_asked 1 2 replaced
broker_accounts_example = broker_accounts 1 2 tabs_only replaced refl

-- A hosted worker that fails leaves the request in its route: the worker that a tab hands over next
-- is sent nothing.
abbrev fallen : List Event
fallen =
    connects 1 ∷ asks 1 1 (open_database "db" opfs) 0 ∷ hosting_fails 100 ∷ hands_over 1 50 ∷ []

fallen_posts :
    (run hosting fallen started).traffic.sent
    ≡ requested 100 1 (open_database "db" opfs) ∷ controlled 1 spawn_worker ∷ []
unfolding run
fallen_posts = refl
