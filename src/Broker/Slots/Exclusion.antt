-- ===== src/Broker/Slots/Exclusion.antt =====
-- The slots that are held together, and who has to wait.
use remelon_db.Prelude.{
  ℕ, ◌+◌, ◌<◌, ◌≤◌, ◌≡◌, refl, ap, subst, sym, Bool, true, false, not, ◌||◌, List, [], ◌∷◌, ◌++◌,
  arith, All-append, All-mono, length, leb, if_cases, if_not_cases,
}
use remelon_db.Prelude.Ids.{get_at, set_at, remove_at, AreBelow, set_at-new, All-remove_at}
use remelon_db.Broker.{Posted}
use remelon_db.Broker.Slots.{
  SlotWaiter, Slot, Slots, held_exclusive, can_grant, grant_loop, acquire_slot, owns, released,
  release_slot,
}

-- an exclusive slot is held alone
unfoldable pub is_alone : List (ℕ × Slot) → Bool
is_alone held = leb (length held) 1 || not (held_exclusive held)

-- nobody waits who could be let in
unfoldable pub is_settled : List (ℕ × Slot) → List SlotWaiter → Bool
is_settled held [] = true
is_settled held (head ∷ queue) = not (can_grant head held)

pub record IsSafe (s : Slots) : Type 0 where
  pub below : AreBelow s.next_slot s.held_slots
  pub alone : is_alone s.held_slots ≡ true
  pub settled : is_settled s.held_slots s.slot_queue ≡ true

held_exclusive-snoc :
    (held : List (ℕ × Slot)) (e : ℕ × Slot)
    → held_exclusive (held ++ (e ∷ [])) ≡ held_exclusive held || e.1.exclusive
held_exclusive-snoc [] e = ground arith
held_exclusive-snoc (x ∷ held) e = ground (arith, held_exclusive-snoc held e)

pub AreBelow-snoc :
    (n : ℕ) (held : List (ℕ × Slot)) (slot : Slot)
    → AreBelow n held
    → AreBelow (n + 1) (held ++ ((n, slot) ∷ []))
AreBelow-snoc n held slot h =
    All-append (λ e. e.0 < n + 1) held ((n, slot) ∷ [])
      (All-mono (λ e. e.0 < n) (λ e. e.0 < n + 1) (λ e lt. omega arith) held h) (omega arith, tt)

-- a waiter that is let in keeps exclusive slots alone
granted-alone :
    (n : ℕ) (held : List (ℕ × Slot)) (w : SlotWaiter)
    → can_grant w held ≡ true
    → is_alone held ≡ true
    → is_alone (held ++ ((n, record { exclusive = w.exclusive; owner = w.port }) ∷ [])) ≡ true
unfolding can_grant is_alone
granted-alone n [] w can alone = ground arith
granted-alone n (e ∷ held) w can alone =
    ground (
      arith,
      held_exclusive-snoc (e ∷ held) (n, record { exclusive = w.exclusive; owner = w.port }),
    )

-- an exclusive slot lets nobody in
exclusive-is_settled :
    (held : List (ℕ × Slot)) (queue : List SlotWaiter)
    → held_exclusive held ≡ true
    → is_settled held queue ≡ true
unfolding is_settled can_grant
exclusive-is_settled held [] h = refl
exclusive-is_settled [] (w ∷ queue) h = cc
exclusive-is_settled (e ∷ held) (w ∷ queue) h = ground (arith, h)

pub grant_loop-IsSafe :
    (n : ℕ) (held : List (ℕ × Slot)) (queue : List SlotWaiter)
    → AreBelow n held
    → is_alone held ≡ true
    → IsSafe (grant_loop n held queue).0
unfolding grant_loop is_settled
grant_loop-IsSafe n held [] below alone = record { below = below; alone = alone; settled = refl }
grant_loop-IsSafe n held (w ∷ queue) below alone =
    let slot : Slot = record { exclusive = w.exclusive; owner = w.port } in
    let fresh = set_at-new n slot held below in
    let below' : AreBelow (n + 1) (set_at n slot held) =
      subst (AreBelow (n + 1)) (sym fresh) (AreBelow-snoc n held slot below) in
    let alone' : can_grant w held ≡ true → is_alone (set_at n slot held) ≡ true =
      λ can. subst (λ h. is_alone h ≡ true) (sym fresh) (granted-alone n held w can alone) in
    let blocked : w.exclusive ≡ true → held_exclusive (set_at n slot held) ≡ true = λ e.
      subst (λ h. held_exclusive h ≡ true) (sym fresh)
        (ground (arith, held_exclusive-snoc held (n, slot), e)) in
    let P : Slots × List Posted → Type 0 = λ out. IsSafe out.0 in
    if_not_cases P (can_grant w held)
      (λ shut. record { below = below; alone = alone; settled = ap not shut })
      (λ can.
        if_cases P w.exclusive
          (λ e. record {
            below = below';
            alone = alone' can;
            settled = exclusive-is_settled (set_at n slot held) queue (blocked e);
          })
          (λ shared.
            let r = grant_loop-IsSafe (n + 1) (set_at n slot held) queue below' (alone' can) in
            record { below = r.below; alone = r.alone; settled = r.settled }))

length-remove_at : (k : ℕ) (held : List (ℕ × Slot)) → length (remove_at k held) ≤ length held
unfolding remove_at
length-remove_at k [] = omega arith
length-remove_at k (e ∷ held) = ground (arith, length-remove_at k held)

held_exclusive-remove_at :
    (k : ℕ) (held : List (ℕ × Slot))
    → held_exclusive held ≡ false
    → held_exclusive (remove_at k held) ≡ false
unfolding remove_at
held_exclusive-remove_at k [] h = refl
held_exclusive-remove_at k (e ∷ held) h = ground (arith, held_exclusive-remove_at k held)

remove_at-alone :
    (k : ℕ) (held : List (ℕ × Slot)) → is_alone held ≡ true → is_alone (remove_at k held) ≡ true
unfolding is_alone
remove_at-alone k held h = ground (arith, length-remove_at k held, held_exclusive-remove_at k held)

pub acquire_slot-IsSafe :
    (port id : ℕ) (exclusive : Bool) (s : Slots)
    → IsSafe s
    → IsSafe (acquire_slot port id exclusive s).0
unfolding acquire_slot
acquire_slot-IsSafe port id exclusive s safe =
    grant_loop-IsSafe s.next_slot s.held_slots _ safe.below safe.alone

pub released-IsSafe :
    (port slot n : ℕ) (held : List (ℕ × Slot))
    → AreBelow n held
    → is_alone held ≡ true
    → AreBelow n (released port slot held) × (is_alone (released port slot held) ≡ true)
unfolding released
released-IsSafe port slot n held below alone =
    if_cases (λ h. AreBelow n h × (is_alone h ≡ true)) (owns port (get_at slot held))
      (λ mine. (All-remove_at (λ e. e.0 < n) slot held below, remove_at-alone slot held alone))
      (λ foreign. (below, alone))

pub release_slot-IsSafe :
    (port id slot : ℕ) (s : Slots) → IsSafe s → IsSafe (release_slot port id slot s).0
unfolding release_slot
release_slot-IsSafe port id slot s safe =
    let (below, alone) = released-IsSafe port slot s.next_slot s.held_slots safe.below safe.alone in
    grant_loop-IsSafe s.next_slot (released port slot s.held_slots) s.slot_queue below alone
