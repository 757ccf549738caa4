-- ===== src/Broker/Ledger/Posting.antt =====
-- What the broker posts to tabs, and the slots it grants, in the ledger.
use remelon_db.Prelude.{
  ℕ, ◌+◌, ◌≡◌, refl, subst, ap, ◌∙◌, true, false, ◌&&◌, List, [], ◌∷◌, arith, eqb, if_cases,
  if_not_cases, if◌then◌else◌,
}
use remelon_db.Prelude.Ids.{set_at}
use remelon_db.Broker.{Answer, Posted, answered}
use remelon_db.Broker.Slots.{Slot, Slots, SlotWaiter, can_grant, grant_loop}
use remelon_db.Broker.State.{page, Pending, Traffic, Holding, Broker, Env, post}
use remelon_db.Broker.Recruit.{forward}
use remelon_db.Broker.Epoch.{is_work}
use remelon_db.Broker.Handle.{tell_others, post_all}
use remelon_db.Broker.Ledger.{
  IsGood, one_if, is_asker, owed_slots, is_answer, answers, traffic_ledger,
}
use remelon_db.Broker.Ledger.Passing.{Keeps, post-ledger, post-IsGood}
use remelon_db.Broker.Ledger.Hosting.{forward-Keeps}

module _ (port id : ℕ) where
  -- the request is in a route, in the backlog or in the queue for slots, or it was answered
  unfoldable pub ledger : Broker → ℕ
  unfolding traffic_ledger owed_slots
  ledger b = traffic_ledger port id b.traffic + owed_slots port id b.slots.slot_queue

  -- `n` more requests are in the ledger
  pub record Accounts (n : ℕ) (b after : Broker) : Type 0 where
    pub good : IsGood after.traffic
    pub same : ledger after ≡ ledger b + n

  pub Keeps-Accounts : (n : ℕ) (b after : Broker) → Keeps port id n b after → Accounts n b after
  unfolding ledger
  Keeps-Accounts n b after k = record { good = k.good; same = rw k.slots (omega (arith, k.same)) }

  -- what is granted leaves the queue and is answered
  pub grant_loop-ledger :
      (n : ℕ) (held : List (ℕ × Slot)) (queue : List SlotWaiter)
      → owed_slots port id (grant_loop n held queue).0.slot_queue
          + answers port id (grant_loop n held queue).1
        ≡ owed_slots port id queue
  unfolding grant_loop owed_slots answers is_answer
  grant_loop-ledger n held [] = refl
  grant_loop-ledger n held (w ∷ queue) =
      let one = one_if (eqb w.port port && eqb w.request_id id) in
      let P : Slots × List Posted → Type 0 = λ out.
        owed_slots port id out.0.slot_queue + answers port id out.1
        ≡ one + owed_slots port id queue in
      if_not_cases P (can_grant w held) (λ shut. omega arith)
        (λ can.
          if_cases P w.exclusive (λ alone. omega arith)
            (λ shared. omega (
              arith,
              grant_loop-ledger (n + 1)
                  (set_at n (record { exclusive = w.exclusive; owner = w.port }) held) queue,
            )))

  pub post_all-lem :
      (messages : List Posted) (t : Traffic)
      → IsGood t
      → IsGood (post_all messages t)
        × (traffic_ledger port id (post_all messages t)
            ≡ traffic_ledger port id t + answers port id messages)
  unfolding post_all answers
  post_all-lem [] t good = (good, omega arith)
  post_all-lem (m ∷ messages) t good =
      let (sound, same) = post_all-lem messages (post m t) (post-IsGood port id m t good) in
      (sound, same ∙ omega (arith, post-ledger port id m t))

  pub tell_others-lem :
      (from : ℕ) (message : ℕ → Posted) (holders : List ℕ) (t : Traffic)
      → ((p : ℕ) → is_answer port id (message p) ≡ false)
      → IsGood t
      → IsGood (tell_others from message holders t)
        × (traffic_ledger port id (tell_others from message holders t) ≡ traffic_ledger port id t)
  unfolding tell_others
  tell_others-lem from message [] t control good = (good, refl)
  tell_others-lem from message (h ∷ holders) t control good =
      let told : Traffic = if eqb h from then t else post (message h) t in
      let P : Traffic → Type 0 =
        λ u. IsGood u × (traffic_ledger port id u ≡ traffic_ledger port id t) in
      let (one, kept) : P told =
        if_cases P (eqb h from) (λ itself. (good, refl))
          (λ other. (
            post-IsGood port id (message h) t good,
            post-ledger port id (message h) t ∙ rw (control h) (omega arith),
          )) in
      let (sound, same) = tell_others-lem from message holders told control one in
      (sound, same ∙ kept)

  -- a request that the broker answers itself, when the rest of the traffic is as it was
  pub answered-Keeps :
      (p i : ℕ) (a : Answer) (b after : Broker) (t : Traffic)
      → IsGood t
      → traffic_ledger port id t ≡ traffic_ledger port id b.traffic
      → after.traffic ≡ post (answered p i a) t
      → after.slots ≡ b.slots
      → Keeps port id (one_if (eqb p port && eqb i id)) b after
  unfolding is_answer
  answered-Keeps p i a b after t good kept posted slots = record {
    good = rw posted (post-IsGood port id (answered p i a) t good);
    same = rw posted (
        post-ledger port id (answered p i a) t
        ∙ ap (λ n. n + one_if (eqb p port && eqb i id)) kept);
    slots = slots;
  }

  -- a request that is passed on, after the holders changed
  pub forwarded-Keeps :
      (env : Env) (p i : ℕ) (item : Pending) (h : Holding) (b : Broker)
      → is_work item.request ≡ true
      → item.asker ≡ page p i
      → IsGood b.traffic
      → Keeps port id
          (one_if (eqb p port && eqb i id))
          b
          (forward env p item (record b { holding = h }))
  forwarded-Keeps env p i item h b work asker good =
      let aside = record b { holding = h } in
      let passed = forward-Keeps port id env p item aside work good in
      subst (λ a. Keeps port id (one_if (is_asker port id a)) b (forward env p item aside)) asker
        (record { good = passed.good; same = passed.same; slots = passed.slots })
