-- ===== src/Broker/Slots.antt =====
-- shared-worker.ts, "Write-block arbitration": the slots that are held and the queue for them. A
-- port is a number.
pub mod Exclusion
pub mod Lock
pub mod Owner
pub mod Runs
pub mod Serving
use remelon_db.Prelude.{
  ℕ, ◌+◌, Bool, true, false, not, Option, some, none, List, [], ◌∷◌, ◌++◌, any, eqb, is_empty,
  if◌then◌else◌,
}
use remelon_db.Prelude.Ids.{get_at, set_at, remove_at}
use remelon_db.Broker.{Value, number, null, object, field, empty, Posted, answer}

-- the fields of `SlotWaiter`
pub record SlotWaiter : Type 0 where
  pub port : ℕ
  pub request_id : ℕ
  pub exclusive : Bool

pub record Slot : Type 0 where
  pub exclusive : Bool
  pub owner : ℕ

-- `nextSlot`, `heldSlots` and `slotQueue`
pub record Slots : Type 0 where
  pub next_slot : ℕ
  pub held_slots : List (ℕ × Slot)
  pub slot_queue : List SlotWaiter

abbrev pub no_slots : Slots
no_slots = record { next_slot = 1; held_slots = []; slot_queue = [] }

abbrev pub held_exclusive : List (ℕ × Slot) → Bool
held_exclusive held = any (λ e. e.1.exclusive) held

unfoldable pub can_grant : SlotWaiter → List (ℕ × Slot) → Bool
can_grant head held = if head.exclusive then is_empty held else not (held_exclusive held)

-- `{ slot }`
abbrev pub slot_result : ℕ → Value
slot_result slot = object (field "slot" (number slot) empty)

-- the loop of `grantSlots`, on the queue
unfoldable pub grant_loop : ℕ → List (ℕ × Slot) → List SlotWaiter → Slots × List Posted
unfolding can_grant
grant_loop slot held [] = (record { next_slot = slot; held_slots = held; slot_queue = [] }, [])
grant_loop slot held (head ∷ queue) =
    let granted = set_at slot (record { exclusive = head.exclusive; owner = head.port }) held in
    let rest = grant_loop (slot + 1) granted queue in
    let post = answer head.port head.request_id (slot_result slot) in
    if not (can_grant head held)
    then (record { next_slot = slot; held_slots = held; slot_queue = head ∷ queue }, [])
    else if head.exclusive
    then (record { next_slot = slot + 1; held_slots = granted; slot_queue = queue }, post ∷ [])
    else (rest.0, post ∷ rest.1)

abbrev pub grant_slots : Slots → Slots × List Posted
grant_slots s = grant_loop s.next_slot s.held_slots s.slot_queue

-- case 'acquireSlot'
unfoldable pub acquire_slot : ℕ → ℕ → Bool → Slots → Slots × List Posted
unfolding grant_loop
acquire_slot port id exclusive s =
    let waiter : SlotWaiter = record { port = port; request_id = id; exclusive = exclusive } in
    grant_slots (record s { slot_queue = s.slot_queue ++ (waiter ∷ []) })

-- heldSlots.get(slot)?.owner === port
unfoldable pub owns : ℕ → Option Slot → Bool
owns port none = false
owns port (some slot) = eqb slot.owner port

-- `heldSlots` after the first statement of case 'releaseSlot'
unfoldable pub released : ℕ → ℕ → List (ℕ × Slot) → List (ℕ × Slot)
unfolding owns get_at remove_at
released port slot held = if owns port (get_at slot held) then remove_at slot held else held

-- case 'releaseSlot'
unfoldable pub release_slot : ℕ → ℕ → ℕ → Slots → Slots × List Posted
unfolding grant_loop released
release_slot port id slot s =
    let granted = grant_slots (record s { held_slots = released port slot s.held_slots }) in
    (granted.0, answer port id null ∷ granted.1)
