-- ===== src/Broker/Slots/Runs.antt =====
-- What holds of the slots after any sequence of requests about them.
use remelon_db.Prelude.{ℕ, Bool, List, [], ◌∷◌, refl, arith}
use remelon_db.Broker.Slots.{Slots, no_slots, acquire_slot, release_slot}
use remelon_db.Broker.Slots.Exclusion.{
  IsSafe, is_alone, is_settled, acquire_slot-IsSafe, release_slot-IsSafe,
}
use remelon_db.Broker.Slots.Lock.{LockRequest, asks, Serves, AreServed, rests, serves, lock_of}
use remelon_db.Broker.Slots.Serving.{release_request, acquire_slot-Serves, release_slot-Serves}

-- The requests about slots that arrive, in order.
pub data SlotEvent : Type 0 where
  acquires : ℕ → ℕ → Bool → SlotEvent
  releases : ℕ → ℕ → ℕ → SlotEvent

unfoldable pub slot_step : SlotEvent → Slots → Slots
unfolding acquire_slot release_slot
slot_step (acquires port id exclusive) s = (acquire_slot port id exclusive s).0
slot_step (releases port id slot) s = (release_slot port id slot s).0

unfoldable pub run_slots : List SlotEvent → Slots → Slots
unfolding slot_step
run_slots [] s = s
run_slots (e ∷ events) s = run_slots events (slot_step e s)

-- what the events ask of the lock
unfoldable pub lock_request : SlotEvent → Slots → LockRequest
unfolding release_request
lock_request (acquires port id exclusive) s = asks (record { port = port; exclusive = exclusive })
lock_request (releases port id slot) s = release_request port slot s.held_slots

unfoldable pub lock_requests : List SlotEvent → Slots → List LockRequest
unfolding lock_request slot_step
lock_requests [] s = []
lock_requests (e ∷ events) s = lock_request e s ∷ lock_requests events (slot_step e s)

slot_step-lem :
    (e : SlotEvent) (s : Slots)
    → IsSafe s
    → IsSafe (slot_step e s) × Serves (lock_request e s) (lock_of s) (lock_of (slot_step e s))
unfolding slot_step lock_request
slot_step-lem (acquires port id exclusive) s safe =
    (acquire_slot-IsSafe port id exclusive s safe, acquire_slot-Serves port id exclusive s safe)
slot_step-lem (releases port id slot) s safe =
    (release_slot-IsSafe port id slot s safe, release_slot-Serves port id slot s safe)

run_slots-lem :
    (events : List SlotEvent) (s : Slots)
    → IsSafe s
    → IsSafe (run_slots events s)
      × AreServed (lock_requests events s) (lock_of s) (lock_of (run_slots events s))
unfolding run_slots lock_requests
run_slots-lem [] s safe = (safe, rests (lock_of s))
run_slots-lem (e ∷ events) s safe =
    let (kept, served) = slot_step-lem e s safe in
    let (after, run) = run_slots-lem events (slot_step e s) kept in (after, serves served run)

no_slots-IsSafe : IsSafe no_slots
unfolding is_alone is_settled
no_slots-IsSafe = record { below = tt; alone = ground arith; settled = refl }

-- After any sequence of requests about slots: the ids of the held slots are below the counter, an
-- exclusive slot is the only one that is held, and the first in the queue is not one that could be
-- let in.
pub slots_run-IsSafe : (events : List SlotEvent) → IsSafe (run_slots events no_slots)
slots_run-IsSafe events = (run_slots-lem events no_slots no_slots-IsSafe).0

-- Any sequence of requests about slots is served as an abstract lock serves it, request by request. To
-- acquire is to join the end of the queue; to release a slot that the port holds is for one party of
-- that port to leave, and any other release changes nothing. After each request those first in the
-- queue enter, one by one, alone if they asked for that and else where nobody is alone, until the
-- first may not; nobody else enters and nobody else leaves.
pub slots_run-refines :
    (events : List SlotEvent)
    → AreServed
        (lock_requests events no_slots)
        (lock_of no_slots)
        (lock_of (run_slots events no_slots))
slots_run-refines events = (run_slots-lem events no_slots no_slots-IsSafe).1
