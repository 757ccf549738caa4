-- ===== src/Broker/Slots/Owner.antt =====
-- Who ends the holding of a slot.
use remelon_db.Prelude.{
  ℕ, ◌+◌, ◌<◌, ◌≡◌, refl, sym, subst, some-injective, ◌∙◌, Bool, true, false, Option, none, some,
  List, [], ◌∷◌, arith, eqb, eqb_iff, if_cases, if_not_cases,
}
use remelon_db.Prelude.Ids.{get_at, set_at, remove_at, AreBelow, All-get_at, get_at-set_at}
use remelon_db.Broker.{Posted}
use remelon_db.Broker.Slots.{
  SlotWaiter, Slot, Slots, can_grant, grant_loop, acquire_slot, owns, released, release_slot,
}
use remelon_db.Broker.Slots.Exclusion.{IsSafe, released-IsSafe}
use remelon_db.Broker.Slots.Serving.{AreBelow-set}

-- what is granted leaves the slots that are held as they are
grant_loop-keeps :
    (n k : ℕ) (slot : Slot) (held : List (ℕ × Slot)) (queue : List SlotWaiter)
    → AreBelow n held
    → get_at k held ≡ some slot
    → get_at k (grant_loop n held queue).0.held_slots ≡ some slot
unfolding grant_loop
grant_loop-keeps n k slot held [] below found = found
grant_loop-keeps n k slot held (w ∷ queue) below found =
    let new : Slot = record { exclusive = w.exclusive; owner = w.port } in
    let lt = All-get_at (λ (e : ℕ × Slot). e.0 < n) k held found below in
    let still : get_at k (set_at n new held) ≡ some slot =
      ground (arith, get_at-set_at n k new held, found, lt) in
    let P : Slots × List Posted → Type 0 = λ out. get_at k out.0.held_slots ≡ some slot in
    if_not_cases P (can_grant w held) (λ shut. found)
      (λ can.
        if_cases P w.exclusive (λ alone. still)
          (λ shared.
            grant_loop-keeps (n + 1) k slot (set_at n new held) queue
              (AreBelow-set n new held below) still))

-- deleting one key leaves the others
get_at-remove_at-other :
    (k j : ℕ) (held : List (ℕ × Slot))
    → eqb j k ≡ false
    → get_at k (remove_at j held) ≡ get_at k held
unfolding get_at remove_at
get_at-remove_at-other k j [] other = refl
get_at-remove_at-other k j ((i, s) ∷ held) other =
    ground (arith, get_at-remove_at-other k j held other, eqb_iff i j, eqb_iff i k, eqb_iff j k)

owns-found :
    (port j k : ℕ) (slot : Slot) (held : List (ℕ × Slot))
    → get_at k held ≡ some slot
    → eqb slot.owner port ≡ false
    → owns port (get_at j held) ≡ true
    → eqb j k ≡ false
unfolding owns
owns-found port j k slot held found foreign mine = at (eqb j k) refl
  where
    others : (o : Option Slot) → o ≡ some slot → owns port o ≡ true → ⊥
    others none e owned = cc
    others (some v) e owned =
        let other : eqb v.owner port ≡ false =
          subst (λ u. eqb u.owner port ≡ false) (sym (some-injective e)) foreign in
        ground (arith, other, owned)

    at : (same : Bool) → eqb j k ≡ same → eqb j k ≡ false
    at true e =
        let owned : owns port (get_at k held) ≡ true =
          subst (λ i. owns port (get_at i held) ≡ true) ((eqb_iff j k).0 e) mine in
        let never : ⊥ = others (get_at k held) found owned in absurd never
    at false e = e

-- Where the slots are safe: a slot that a port holds is still its own after every request of
-- another port to acquire a slot, or to release any slot, that one included.
pub slot-kept :
    (port id j k : ℕ) (exclusive : Bool) (slot : Slot) (s : Slots)
    → IsSafe s
    → get_at k s.held_slots ≡ some slot
    → eqb slot.owner port ≡ false
    → (get_at k (acquire_slot port id exclusive s).0.held_slots ≡ some slot)
      × (get_at k (release_slot port id j s).0.held_slots ≡ some slot)
unfolding acquire_slot release_slot released
slot-kept port id j k exclusive slot s safe found foreign =
    let (below, alone) = released-IsSafe port j s.next_slot s.held_slots safe.below safe.alone in
    let still : get_at k (released port j s.held_slots) ≡ some slot =
      if_cases (λ h. get_at k h ≡ some slot) (owns port (get_at j s.held_slots))
        (λ mine.
          get_at-remove_at-other k j s.held_slots
            (owns-found port j k slot s.held_slots found foreign mine)
          ∙ found)
        (λ theirs. found) in
    (
      grant_loop-keeps s.next_slot k slot s.held_slots _ safe.below found,
      grant_loop-keeps s.next_slot k slot (released port j s.held_slots) s.slot_queue below still,
    )
