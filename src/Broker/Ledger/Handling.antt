-- ===== src/Broker/Ledger/Handling.antt =====
-- A tab's request goes into the ledger, once.
use remelon_db.Prelude.{
  ℕ, ◌+◌, ◌≡◌, refl, ◌∙◌, String, Bool, true, ◌&&◌, List, [], ◌∷◌, ◌++◌, arith, eqb, is_empty,
  if_cases, if_not_cases,
}
use remelon_db.Prelude.Map.{get}
use remelon_db.Broker.{
  Storage, Value, null, boolean, object, field, empty, LeaseMs, Request, open_database,
  close_database, destroy_database, query, execute, execute_batch, set_user_version, ping,
  release_pool, acquire_slot, release_slot, publish_changes, sync_turn, done, external_changes,
  database_destroyed, Posted, controlled,
}
use remelon_db.Broker.Changes.{is_change_set}
use remelon_db.Broker.Leases
use remelon_db.Broker.Slots
use remelon_db.Broker.Slots.{Slot, Slots, SlotWaiter, can_grant, grant_loop, slot_result, released}
use remelon_db.Broker.State.{Broker, Env}
use remelon_db.Broker.Recruit.{forward}
use remelon_db.Broker.Epoch.{is_work}
use remelon_db.Broker.Handle.{
  has_port, delete_port, ports_of, plain, storage_refusal, same_storage, joiner, opener,
  with_holder, with_storage, forget, tell_others, handle_open, handle_close, handle_destroy,
  changes_refusal, handle_publish, handle_turn, post_all, with_slots, handle,
}
use remelon_db.Broker.Ledger.{IsGood, one_if, owed_slots, is_answer, answers, owed_slots-append}
use remelon_db.Broker.Ledger.Passing.{Keeps, Keeps-after}
use remelon_db.Broker.Ledger.Hosting.{forward-Keeps}
use remelon_db.Broker.Ledger.Posting.{
  ledger, Accounts, Keeps-Accounts, grant_loop-ledger, post_all-lem, tell_others-lem,
  answered-Keeps, forwarded-Keeps,
}

module _ (port id : ℕ) where
  handle_open-Keeps :
      (env : Env) (p i : ℕ) (name : String) (storage : Storage) (b : Broker)
      → IsGood b.traffic
      → Keeps port id (one_if (eqb p port && eqb i id)) b (handle_open env p i name storage b)
  unfolding handle_open
  handle_open-Keeps env p i name storage b good =
      let P = Keeps port id (one_if (eqb p port && eqb i id)) b in
      let joins = with_holder name p b.holding in
      let held = get name b.holding.storage in
      if_cases P (is_empty (ports_of name b.holding))
        (λ first.
          forwarded-Keeps port id env p i (opener p i name storage)
            (with_storage name storage joins) b refl refl good)
        (λ more.
          if_not_cases P (same_storage storage held)
            (λ differs.
              answered-Keeps port id p i (storage_refusal name storage held) b _ b.traffic good refl
                refl refl)
            (λ same.
              forwarded-Keeps port id env p i
                (joiner p i name (has_port p (ports_of name b.holding))) joins b refl refl good))

  handle_close-Keeps :
      (env : Env) (p i : ℕ) (name : String) (b : Broker)
      → IsGood b.traffic
      → Keeps port id (one_if (eqb p port && eqb i id)) b (handle_close env p i name b)
  unfolding handle_close
  handle_close-Keeps env p i name b good =
      if_cases (Keeps port id (one_if (eqb p port && eqb i id)) b)
        (is_empty (delete_port p (ports_of name b.holding)))
        (λ last.
          forwarded-Keeps port id env p i (plain p i (close_database name)) (forget name b.holding)
            b refl refl good)
        (λ others. answered-Keeps port id p i (done null) b _ b.traffic good refl refl refl)

  -- the requests that `handle` passes on as they came
  plain-Accounts :
      (env : Env) (p i : ℕ) (request : Request) (b : Broker)
      → is_work request ≡ true
      → IsGood b.traffic
      → Accounts port id (one_if (eqb p port && eqb i id)) b (forward env p (plain p i request) b)
  plain-Accounts env p i request b work good =
      let item = plain p i request in
      Keeps-Accounts port id (one_if (eqb p port && eqb i id)) b (forward env p item b)
        (forwarded-Keeps port id env p i item b.holding b work refl good)

  handle_destroy-Keeps :
      (env : Env) (p i : ℕ) (name : String) (b : Broker)
      → IsGood b.traffic
      → Keeps port id (one_if (eqb p port && eqb i id)) b (handle_destroy env p i name b)
  unfolding handle_destroy is_answer
  handle_destroy-Keeps env p i name b good =
      let message : ℕ → Posted = λ q. controlled q (database_destroyed name) in
      let (sound, same) =
        tell_others-lem port id p message (ports_of name b.holding) b.traffic (λ q. refl) good in
      let told : Broker = record b {
        traffic = tell_others p message (ports_of name b.holding) b.traffic;
        holding = forget name b.holding;
      } in
      Keeps-after port id (one_if (eqb p port && eqb i id)) b told
        (forward env p (plain p i (destroy_database name)) told)
        (record { good = sound; same = omega (arith, same); slots = refl })
        (forward-Keeps port id env p (plain p i (destroy_database name)) told refl sound)

  handle_publish-Keeps :
      (p i : ℕ) (name : String) (changes : Value) (b : Broker)
      → IsGood b.traffic
      → Keeps port id (one_if (eqb p port && eqb i id)) b (handle_publish p i name changes b)
  unfolding handle_publish is_answer
  handle_publish-Keeps p i name changes b good =
      let message : ℕ → Posted = λ q. controlled q (external_changes name changes) in
      let (sound, same) =
        tell_others-lem port id p message (ports_of name b.holding) b.traffic (λ q. refl) good in
      if_cases (Keeps port id (one_if (eqb p port && eqb i id)) b) (is_change_set changes)
        (λ valid.
          answered-Keeps port id p i (done null) b _
            (tell_others p message (ports_of name b.holding) b.traffic) sound same refl refl)
        (λ invalid. answered-Keeps port id p i changes_refusal b _ b.traffic good refl refl refl)

  handle_turn-Keeps :
      (p i : ℕ) (name : String) (asked : LeaseMs) (now : ℕ) (b : Broker)
      → IsGood b.traffic
      → Keeps port id (one_if (eqb p port && eqb i id)) b (handle_turn p i name asked now b)
  unfolding handle_turn
  handle_turn-Keeps p i name asked now b good =
      let granted = (Leases.sync_turn p now name asked b.leases).1 in
      answered-Keeps port id p i (done (object (field "granted" (boolean granted) empty))) b _
        b.traffic good refl refl refl

  acquire_slot-ledger :
      (p i : ℕ) (exclusive : Bool) (s : Slots)
      → owed_slots port id (Slots.acquire_slot p i exclusive s).0.slot_queue
          + answers port id (Slots.acquire_slot p i exclusive s).1
        ≡ owed_slots port id s.slot_queue + one_if (eqb p port && eqb i id)
  unfolding Slots.acquire_slot owed_slots
  acquire_slot-ledger p i exclusive s =
      let w : SlotWaiter = record { port = p; request_id = i; exclusive = exclusive } in
      grant_loop-ledger port id s.next_slot s.held_slots (s.slot_queue ++ (w ∷ []))
      ∙ owed_slots-append port id s.slot_queue (w ∷ [])
      ∙ omega arith

  release_slot-ledger :
      (p i slot : ℕ) (s : Slots)
      → owed_slots port id (Slots.release_slot p i slot s).0.slot_queue
          + answers port id (Slots.release_slot p i slot s).1
        ≡ owed_slots port id s.slot_queue + one_if (eqb p port && eqb i id)
  unfolding Slots.release_slot answers is_answer
  release_slot-ledger p i slot s =
      omega
        (arith, grant_loop-ledger port id s.next_slot (released p slot s.held_slots) s.slot_queue)

  -- the slots after a request, and what was posted to those who wait
  with_slots-Accounts :
      (n : ℕ) (out : Slots × List Posted) (b : Broker)
      → IsGood b.traffic
      → owed_slots port id out.0.slot_queue + answers port id out.1
        ≡ owed_slots port id b.slots.slot_queue + n
      → Accounts port id n b (with_slots out b)
  unfolding ledger post_all
  with_slots-Accounts n out b good same =
      let (sound, posted) = post_all-lem port id out.1 b.traffic good in
      record { good = sound; same = omega (arith, posted, same) }

  pub handle-Accounts :
      (env : Env) (p i : ℕ) (request : Request) (now : ℕ) (b : Broker)
      → is_work request ≡ true
      → IsGood b.traffic
      → Accounts port id (one_if (eqb p port && eqb i id)) b (handle env p i request now b)
  unfolding handle
  handle-Accounts env p i (acquire_slot exclusive) now b work good =
      with_slots-Accounts (one_if (eqb p port && eqb i id))
        (Slots.acquire_slot p i exclusive b.slots) b good
        (acquire_slot-ledger p i exclusive b.slots)
  handle-Accounts env p i (release_slot slot) now b work good =
      with_slots-Accounts (one_if (eqb p port && eqb i id)) (Slots.release_slot p i slot b.slots) b
        good (release_slot-ledger p i slot b.slots)
  handle-Accounts env p i (sync_turn name asked) now b work good =
      Keeps-Accounts port id (one_if (eqb p port && eqb i id)) b _
        (handle_turn-Keeps p i name asked now b good)
  handle-Accounts env p i (publish_changes name changes) now b work good =
      Keeps-Accounts port id (one_if (eqb p port && eqb i id)) b _
        (handle_publish-Keeps p i name changes b good)
  handle-Accounts env p i (open_database name storage) now b work good =
      Keeps-Accounts port id (one_if (eqb p port && eqb i id)) b _
        (handle_open-Keeps env p i name storage b good)
  handle-Accounts env p i (close_database name) now b work good =
      Keeps-Accounts port id (one_if (eqb p port && eqb i id)) b _
        (handle_close-Keeps env p i name b good)
  handle-Accounts env p i (destroy_database name) now b work good =
      Keeps-Accounts port id (one_if (eqb p port && eqb i id)) b _
        (handle_destroy-Keeps env p i name b good)
  handle-Accounts env p i (query name sql args) now b work good =
      plain-Accounts env p i (query name sql args) b refl good
  handle-Accounts env p i (execute name sql args) now b work good =
      plain-Accounts env p i (execute name sql args) b refl good
  handle-Accounts env p i (execute_batch name statements) now b work good =
      plain-Accounts env p i (execute_batch name statements) b refl good
  handle-Accounts env p i (set_user_version name version) now b work good =
      plain-Accounts env p i (set_user_version name version) b refl good
  handle-Accounts env p i ping now b work good = cc
  handle-Accounts env p i release_pool now b work good = cc
