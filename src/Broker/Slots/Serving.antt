-- ===== src/Broker/Slots/Serving.antt =====
-- The slots serve each request as the abstract lock does.
use remelon_db.Prelude.{
  map_snoc, ap₂, some-injective, eqb_iff, ℕ, ◌+◌, ◌≡◌, refl, subst, sym, ap, ◌∙◌, ◌||◌, Option,
  none, some, Option-cases, inl, inr, if_cases, if_not_cases, Bool, true, false, not, List, [], ◌∷◌,
  ◌++◌, any, map, is_empty, eqb, if◌then◌else◌,
}
use remelon_db.Prelude.Ids.{get_at, set_at, remove_at, AreBelow, set_at-new}
use remelon_db.Broker.{Posted}
use remelon_db.Broker.Slots.{
  SlotWaiter, Slot, Slots, can_grant, grant_loop, acquire_slot, owns, released, release_slot,
}
use remelon_db.Broker.Slots.Exclusion.{
  AreBelow-snoc, is_settled, IsSafe, grant_loop-IsSafe, released-IsSafe,
}
use remelon_db.Broker.Slots.Lock.{
  Party, Lock, may_enter, IsEntry, enters, Entries, here, next, is_quiet, LockRequest, asks, leaves,
  ignored, Takes, joins, goes, stays, Serves, party_inside, party_waiting, lock_view, lock_of,
}

any-inside :
    (held : List (ℕ × Slot))
    → any (λ p. p.exclusive) (map party_inside held) ≡ any (λ e. e.1.exclusive) held
any-inside [] = refl
any-inside (e ∷ held) = ap (λ b. e.1.exclusive || b) (any-inside held)

is_empty-map : (held : List (ℕ × Slot)) → is_empty (map party_inside held) ≡ is_empty held
is_empty-map [] = refl
is_empty-map (e ∷ held) = refl

may_enter-lem :
    (w : SlotWaiter) (held : List (ℕ × Slot))
    → may_enter (party_waiting w) (map party_inside held) ≡ can_grant w held
unfolding can_grant
may_enter-lem w held =
    ap₂ (λ a b. if w.exclusive then a else not b) (is_empty-map held) (any-inside held)

is_settled-is_quiet :
    (held : List (ℕ × Slot)) (queue : List SlotWaiter)
    → is_settled held queue ≡ true
    → is_quiet (map party_inside held) (map party_waiting queue) ≡ true
unfolding is_settled
is_settled-is_quiet held [] h = refl
is_settled-is_quiet held (w ∷ queue) h = ap not (may_enter-lem w held) ∙ h

enter-grant :
    (n : ℕ) (held : List (ℕ × Slot)) (w : SlotWaiter) (queue : List SlotWaiter)
    → AreBelow n held
    → can_grant w held ≡ true
    → IsEntry
        (lock_view held (w ∷ queue))
        (lock_view (set_at n (record { exclusive = w.exclusive; owner = w.port }) held) queue)
enter-grant n held w queue below can =
    let slot : Slot = record { exclusive = w.exclusive; owner = w.port } in
    rw (set_at-new n slot held below) (
      rw (map_snoc party_inside held (n, slot)) (
        enters (party_waiting w) (map party_inside held) (map party_waiting queue)
          (may_enter-lem w held ∙ can)))

pub AreBelow-set :
    (n : ℕ) (slot : Slot) (held : List (ℕ × Slot))
    → AreBelow n held
    → AreBelow (n + 1) (set_at n slot held)
AreBelow-set n slot held below =
    subst (AreBelow (n + 1)) (sym (set_at-new n slot held below)) (AreBelow-snoc n held slot below)

grant_loop-Entries :
    (l : Lock) (n : ℕ) (held : List (ℕ × Slot)) (queue : List SlotWaiter)
    → AreBelow n held
    → Entries l (lock_view held queue)
    → Entries l (lock_of (grant_loop n held queue).0)
unfolding grant_loop
grant_loop-Entries l n held [] below steps = steps
grant_loop-Entries l n held (w ∷ queue) below steps =
    let slot : Slot = record { exclusive = w.exclusive; owner = w.port } in
    let P : Slots × List Posted → Type 0 = λ out. Entries l (lock_of out.0) in
    if_not_cases P (can_grant w held) (λ shut. steps)
      (λ can.
        let entered = next steps (enter-grant n held w queue below can) in
        if_cases P w.exclusive (λ alone. entered)
          (λ shared.
            grant_loop-Entries l (n + 1) (set_at n slot held) queue (AreBelow-set n slot held below)
              entered))

-- one party of the port fewer is inside
abbrev IsWithout : ℕ → List Party → List Party → Type 0
IsWithout port all rest =
    (before : List Party) × (after : List Party) × (p : Party) × (all ≡ before ++ (p ∷ after))
    × (rest ≡ before ++ after)
    × (p.port ≡ port)

-- where a slot that is held stands, and what is left without it
remove_at-split :
    (k : ℕ) (held : List (ℕ × Slot)) {slot : Slot}
    → get_at k held ≡ some slot
    → IsWithout slot.owner (map party_inside held) (map party_inside (remove_at k held))
unfolding get_at remove_at
remove_at-split k [] found = cc
remove_at-split k ((j, v) ∷ held) {slot} found = at (eqb j k) (λ e. remove_at-split k held e) found
  where
    at :
        (b : Bool)
        → (get_at k held ≡ some slot
            → IsWithout slot.owner (map party_inside held) (map party_inside (remove_at k held)))
        → (if b then some v else get_at k held) ≡ some slot
        → IsWithout slot.owner
            (party_inside (j, v) ∷ map party_inside held)
            (map party_inside (if b then held else (j, v) ∷ remove_at k held))
    at true rest e = (
      [],
      map party_inside held,
      party_inside (j, v),
      refl,
      refl,
      ap (λ (w : Slot). w.owner) (some-injective e),
    )
    at false rest e =
        let (before, after, p, all, left, same) = rest e in
        (
          party_inside (j, v) ∷ before,
          after,
          p,
          ap (λ ps. party_inside (j, v) ∷ ps) all,
          ap (λ ps. party_inside (j, v) ∷ ps) left,
          same,
        )

owner_of :
    (port : ℕ) (o : Option Slot) (slot : Slot)
    → o ≡ some slot
    → owns port o ≡ true
    → slot.owner ≡ port
unfolding owns
owner_of port none slot e mine = cc
owner_of port (some held) slot e mine =
    ap (λ (w : Slot). w.owner) (sym (some-injective e)) ∙ (eqb_iff held.owner port).0 mine

owned : (port : ℕ) (o : Option Slot) → o ≡ none → owns port o ≡ true → ⊥
unfolding owns
owned port none nothing mine = cc
owned port (some slot) nothing mine = cc

-- What giving back a slot is to the lock.
unfoldable pub release_request : ℕ → ℕ → List (ℕ × Slot) → LockRequest
release_request port slot held = if owns port (get_at slot held) then leaves port else ignored

released-Takes :
    (port slot : ℕ) (held : List (ℕ × Slot)) (queue : List SlotWaiter)
    → Takes
        (release_request port slot held)
        (lock_view held queue)
        (lock_view (released port slot held) queue)
unfolding released release_request
released-Takes port slot held queue = at (owns port (get_at slot held)) (λ mine.
    elim (Option-cases (get_at slot held)) [
      | inl nothing ↦ absurd (owned port (get_at slot held) nothing mine)
      | inr (v, found) ↦
          gone v (owner_of port (get_at slot held) v found mine) (remove_at-split slot held found)
    ])
  where
    gone :
        (v : Slot)
        → v.owner ≡ port
        → IsWithout v.owner (map party_inside held) (map party_inside (remove_at slot held))
        → Takes (leaves port) (lock_view held queue) (lock_view (remove_at slot held) queue)
    gone v own (before, after, p, all, left, same) =
        rw all (rw left (goes port before after (map party_waiting queue) p (same ∙ own)))

    at :
        (b : Bool)
        → (b ≡ true
            → Takes (leaves port) (lock_view held queue) (lock_view (remove_at slot held) queue))
        → Takes
            (if b then leaves port else ignored)
            (lock_view held queue)
            (lock_view (if b then remove_at slot held else held) queue)
    at true mine = mine refl
    at false mine = stays (lock_view held queue)

pub acquire_slot-Serves :
    (port id : ℕ) (exclusive : Bool) (s : Slots)
    → IsSafe s
    → Serves
        (asks (record { port = port; exclusive = exclusive }))
        (lock_of s)
        (lock_of (acquire_slot port id exclusive s).0)
unfolding acquire_slot
acquire_slot-Serves port id exclusive s safe =
    let w : SlotWaiter = record { port = port; request_id = id; exclusive = exclusive } in
    let queue = s.slot_queue ++ (w ∷ []) in
    let out = grant_loop-IsSafe s.next_slot s.held_slots queue safe.below safe.alone in
    record {
      taken = lock_view s.held_slots queue;
      takes = rw (map_snoc party_waiting s.slot_queue w) (joins (lock_of s) (party_waiting w));
      entries =
          grant_loop-Entries (lock_view s.held_slots queue) s.next_slot s.held_slots queue
            safe.below here;
      quiet = is_settled-is_quiet _ _ out.settled;
    }

pub release_slot-Serves :
    (port id slot : ℕ) (s : Slots)
    → IsSafe s
    → Serves
        (release_request port slot s.held_slots)
        (lock_of s)
        (lock_of (release_slot port id slot s).0)
unfolding release_slot
release_slot-Serves port id slot s safe =
    let held = released port slot s.held_slots in
    let (below, alone) = released-IsSafe port slot s.next_slot s.held_slots safe.below safe.alone in
    let out = grant_loop-IsSafe s.next_slot held s.slot_queue below alone in
    record {
      taken = lock_view held s.slot_queue;
      takes = released-Takes port slot s.held_slots s.slot_queue;
      entries =
          grant_loop-Entries (lock_view held s.slot_queue) s.next_slot held s.slot_queue below here;
      quiet = is_settled-is_quiet _ _ out.settled;
    }
