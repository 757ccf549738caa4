-- ===== src/Broker/Slots/Lock.antt =====
-- The slots as an abstract lock with one queue: those who are inside, and those who wait in the
-- order in which they asked. Ids of slots and of requests are forgotten.
use remelon_db.Prelude.{
  ℕ, ◌≡◌, Bool, true, not, List, [], ◌∷◌, ◌++◌, any, map, is_empty, if◌then◌else◌,
}
use remelon_db.Broker.Slots.{SlotWaiter, Slot, Slots}

-- a tab, and whether it asks for the lock alone
pub record Party : Type 0 where
  pub port : ℕ
  pub exclusive : Bool

pub record Lock : Type 0 where
  pub inside : List Party
  pub waiting : List Party

-- whether a party may enter beside those who are inside
abbrev pub may_enter : Party → List Party → Bool
may_enter p inside = if p.exclusive then is_empty inside else not (any (λ q. q.exclusive) inside)

-- The first in the queue enters: alone if it asked for that, or beside parties that share.
pub data IsEntry : Lock → Lock → Type 0 where
  enters :
      (p : Party) (inside waiting : List Party)
      → may_enter p inside ≡ true
      → IsEntry
          (record { inside = inside; waiting = p ∷ waiting })
          (record { inside = inside ++ (p ∷ []); waiting = waiting })

pub data Entries (l : Lock) : Lock → Type 0 where
  here : Entries l l
  next : {k m : Lock} → Entries l k → IsEntry k m → Entries l m

-- nobody is first in the queue who may enter
abbrev pub is_quiet : List Party → List Party → Bool
is_quiet inside [] = true
is_quiet inside (p ∷ waiting) = not (may_enter p inside)

-- What is asked of the lock; a port that gives back what it does not hold is ignored.
pub data LockRequest : Type 0 where
  asks : Party → LockRequest
  leaves : ℕ → LockRequest
  ignored : LockRequest

-- What a request itself does: a party joins the end of the queue, or one party of the port leaves.
pub data Takes : LockRequest → Lock → Lock → Type 0 where
  joins : (l : Lock) (p : Party) → Takes (asks p) l (record l { waiting = l.waiting ++ (p ∷ []) })
  goes :
      (port : ℕ) (before after waiting : List Party) (p : Party)
      → p.port ≡ port
      → Takes
          (leaves port)
          (record { inside = before ++ (p ∷ after); waiting = waiting })
          (record { inside = before ++ after; waiting = waiting })
  stays : (l : Lock) → Takes ignored l l

-- A request is served: it is taken, and then those enter who may, until nobody may.
pub record Serves (r : LockRequest) (l out : Lock) : Type 0 where
  pub taken : Lock
  pub takes : Takes r l taken
  pub entries : Entries taken out
  pub quiet : is_quiet out.inside out.waiting ≡ true

-- The requests are served, each in its turn.
pub data AreServed : List LockRequest → Lock → Lock → Type 0 where
  rests : (l : Lock) → AreServed [] l l
  serves :
      {r : LockRequest} {requests : List LockRequest} {l mid out : Lock}
      → Serves r l mid
      → AreServed requests mid out
      → AreServed (r ∷ requests) l out

abbrev pub party_inside : ℕ × Slot → Party
party_inside e = record { port = e.1.owner; exclusive = e.1.exclusive }

abbrev pub party_waiting : SlotWaiter → Party
party_waiting w = record { port = w.port; exclusive = w.exclusive }

abbrev pub lock_view : List (ℕ × Slot) → List SlotWaiter → Lock
lock_view held queue = record { inside = map party_inside held; waiting = map party_waiting queue }

abbrev pub lock_of : Slots → Lock
lock_of s = lock_view s.held_slots s.slot_queue
