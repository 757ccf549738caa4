-- ===== src/Broker/Ledger.antt =====
-- What the broker owes to the request that a tab's port made under an id: the places where the
-- request waits, and the answers that were posted.
pub mod Passing
pub mod Hosting
pub mod Passable
pub mod Resets
pub mod Responses
pub mod Epochs
pub mod Posting
pub mod Handling
pub mod Events
use remelon_db.Prelude.{
  ℕ, ◌+◌, ◌≡◌, refl, sym, ap, Bool, true, false, ◌&&◌, ◌||◌, Option, none, some, List, [], ◌∷◌,
  ◌++◌, arith, eqb, All, some-injective, if◌then◌else◌,
}
use remelon_db.Prelude.Ids.{get_at, remove_at, AreBelow}
use remelon_db.Broker.{Posted, answered, controlled, requested}
use remelon_db.Broker.Slots.{SlotWaiter}
use remelon_db.Broker.State.{
  Asker, page, reopen, Pending, Route, passed, pinged, retired, Probe, Traffic, Broker,
}
use remelon_db.Broker.Epoch.{is_work}

-- A route to a tab or a reopening carries user work, under an id that no ping waits for.
abbrev pub IsPassable : List (ℕ × Probe) → ℕ × Route → Type 0
IsPassable probes (id, passed p) = (is_work p.request ≡ true) × (get_at id probes ≡ none)
IsPassable probes (id, pinged) = Unit
IsPassable probes (id, retired target) = Unit

pub record IsGood (t : Traffic) : Type 0 where
  pub routes_below : AreBelow t.next_route t.routes
  pub probes_below : AreBelow t.next_route t.probes
  pub passable : All (IsPassable t.probes) t.routes
  pub queued : All (λ p. is_work p.request ≡ true) t.backlog

abbrev pub one_if : Bool → ℕ
one_if b = if b then 1 else 0

module _ (port id : ℕ) where
  abbrev pub is_asker : Asker → Bool
  is_asker (page p i) = eqb p port && eqb i id
  is_asker (reopen p) = false

  unfoldable pub owed_by : Route → ℕ
  owed_by (passed p) = one_if (is_asker p.asker)
  owed_by pinged = 0
  owed_by (retired target) = 0

  unfoldable pub owed_routes : List (ℕ × Route) → ℕ
  unfolding owed_by
  owed_routes [] = 0
  owed_routes (e ∷ routes) = owed_by e.1 + owed_routes routes

  unfoldable pub owed_backlog : List Pending → ℕ
  owed_backlog [] = 0
  owed_backlog (p ∷ items) = one_if (is_asker p.asker) + owed_backlog items

  unfoldable pub owed_slots : List SlotWaiter → ℕ
  owed_slots [] = 0
  owed_slots (w ∷ queue) = one_if (eqb w.port port && eqb w.request_id id) + owed_slots queue

  unfoldable pub is_answer : Posted → Bool
  is_answer (answered p i answer) = eqb p port && eqb i id
  is_answer (controlled p control) = false
  is_answer (requested p i request) = false

  unfoldable pub answers : List Posted → ℕ
  unfolding is_answer
  answers [] = 0
  answers (message ∷ messages) = one_if (is_answer message) + answers messages

  unfoldable pub traffic_ledger : Traffic → ℕ
  unfolding owed_routes owed_backlog answers
  traffic_ledger t = owed_routes t.routes + owed_backlog t.backlog + answers t.sent

  pub owed_routes-append :
      (xs ys : List (ℕ × Route)) → owed_routes (xs ++ ys) ≡ owed_routes xs + owed_routes ys
  unfolding owed_routes
  owed_routes-append [] ys = omega arith
  owed_routes-append (e ∷ xs) ys = omega (arith, owed_routes-append xs ys)

  pub owed_backlog-append :
      (xs ys : List Pending) → owed_backlog (xs ++ ys) ≡ owed_backlog xs + owed_backlog ys
  unfolding owed_backlog
  owed_backlog-append [] ys = omega arith
  owed_backlog-append (p ∷ xs) ys = omega (arith, owed_backlog-append xs ys)

  pub owed_slots-append :
      (xs ys : List SlotWaiter) → owed_slots (xs ++ ys) ≡ owed_slots xs + owed_slots ys
  unfolding owed_slots
  owed_slots-append [] ys = omega arith
  owed_slots-append (w ∷ xs) ys = omega (arith, owed_slots-append xs ys)

  pub answers-append : (xs ys : List Posted) → answers (xs ++ ys) ≡ answers xs + answers ys
  unfolding answers
  answers-append [] ys = omega arith
  answers-append (m ∷ xs) ys = omega (arith, answers-append xs ys)

  pub owed_routes-remove_at :
      (k : ℕ) (routes : List (ℕ × Route)) {route : Route}
      → get_at k routes ≡ some route
      → owed_routes routes ≡ owed_by route + owed_routes (remove_at k routes)
  unfolding owed_routes get_at remove_at
  owed_routes-remove_at k [] found = cc
  owed_routes-remove_at k ((j, r) ∷ routes) {route} found =
      at (eqb j k) (λ e. owed_routes-remove_at k routes e) found
    where
      at :
          (b : Bool)
          → (get_at k routes ≡ some route
              → owed_routes routes ≡ owed_by route + owed_routes (remove_at k routes))
          → (if b then some r else get_at k routes) ≡ some route
          → owed_by r + owed_routes routes
            ≡ owed_by route + owed_routes (if b then routes else (j, r) ∷ remove_at k routes)
      at true rest e = ap (λ x. owed_by x + owed_routes routes) (some-injective e)
      at false rest e = omega (arith, rest e)
