-- ===== src/Broker/Ledger/Events.antt =====
-- What the broker owes after any sequence of events.
use remelon_db.Prelude.{
  ℕ, ◌+◌, ◌≡◌, refl, ap, ◌∙◌, Bool, true, not, ◌&&◌, Option, none, some, is_some, List, [], ◌∷◌,
  arith, eqb, all, is_empty, and_left, and_right, if_cases,
}
use remelon_db.Broker.{discard_worker, controlled}
use remelon_db.Broker.State.{Recruitment, Broker, Env, started}
use remelon_db.Broker.Recruit.{remember_port, request_spawn}
use remelon_db.Broker.Epoch.{is_work, probe_compute}
use remelon_db.Broker.Handle.{
  handle, Event, connects, asks, hands_over, responds, spawn_times_out, release_times_out,
  probe_times_out, watchdog_fires, hosting_fails, on_connect, on_adopt, spawn_deadline, step, run,
}
use remelon_db.Broker.Ledger.{
  IsGood, one_if, owed_routes, owed_backlog, owed_slots, is_answer, answers, traffic_ledger,
}
use remelon_db.Broker.Ledger.Passing.{Keeps, Keeps-refl, Keeps-after, post-ledger, post-IsGood}
use remelon_db.Broker.Ledger.Hosting.{Keeps-aside, adopt_compute_port-Keeps, request_spawn-Keeps}
use remelon_db.Broker.Ledger.Epochs.{
  probe_compute-Keeps, probe_deadline-Keeps, release_deadline-Keeps, watch-Keeps,
  hosting_error-Keeps,
}
use remelon_db.Broker.Ledger.Responses.{on_response-Keeps}
use remelon_db.Broker.Ledger.Posting.{ledger, Accounts, Keeps-Accounts}
use remelon_db.Broker.Ledger.Handling.{handle-Accounts}

-- A tab sends no request that only the broker makes.
abbrev pub is_proper : Event → Bool
is_proper (asks port id request now) = is_work request
is_proper event = true

module _ (port id : ℕ) where
  abbrev pub asks_once : Event → ℕ
  asks_once (asks p i request now) = one_if (eqb p port && eqb i id)
  asks_once event = 0

  -- how often the tab made the request
  unfoldable pub times_asked : List Event → ℕ
  times_asked [] = 0
  times_asked (event ∷ events) = asks_once event + times_asked events

  on_connect-Keeps :
      (env : Env) (p : ℕ) (b : Broker) → IsGood b.traffic → Keeps port id 0 b (on_connect env p b)
  unfolding on_connect
  on_connect-Keeps env p b good =
      let remembered = record b { connected = remember_port p b.connected } in
      let probed = probe_compute remembered in
      let k =
        Keeps-after port id 0 b remembered probed (Keeps-aside port id b remembered good refl refl)
          (probe_compute-Keeps port id remembered good) in
      if_cases (Keeps port id 0 b)
        (not (is_some probed.compute.port) && not (is_empty probed.traffic.backlog))
        (λ recruits.
          Keeps-after port id 0 b probed (request_spawn env (some p) probed) k
            (request_spawn-Keeps port id env (some p) probed k.good))
        (λ waits. k)

  on_adopt-Keeps :
      (p worker : ℕ) (b : Broker) → IsGood b.traffic → Keeps port id 0 b (on_adopt p worker b)
  unfolding on_adopt is_answer
  on_adopt-Keeps p worker b good =
      if_cases (Keeps port id 0 b) (is_some b.compute.port)
        (λ late. record {
          good = post-IsGood port id (controlled p discard_worker) b.traffic good;
          same = post-ledger port id (controlled p discard_worker) b.traffic;
          slots = refl;
        })
        (λ first. adopt_compute_port-Keeps port id worker b good)

  spawn_deadline-Keeps :
      (env : Env) (o : Option Recruitment) (b : Broker)
      → IsGood b.traffic
      → Keeps port id 0 b (spawn_deadline env o b)
  unfolding spawn_deadline
  spawn_deadline-Keeps env none b good = Keeps-refl port id b good
  spawn_deadline-Keeps env (some active) b good =
      if_cases (Keeps port id 0 b) (active.timer && not (is_some b.compute.port))
        (λ silent. request_spawn-Keeps port id env none b good) (λ over. Keeps-refl port id b good)

  remembered-Accounts :
      (n : ℕ) (ports : List ℕ) (b after : Broker)
      → Accounts port id n (record b { connected = ports }) after
      → Accounts port id n b after
  unfolding ledger
  remembered-Accounts n ports b after k = record { good = k.good; same = k.same }

  -- one event
  step-Accounts :
      (env : Env) (e : Event) (b : Broker)
      → is_proper e ≡ true
      → IsGood b.traffic
      → Accounts port id (asks_once e) b (step env e b)
  unfolding step
  step-Accounts env (connects p) b proper good =
      Keeps-Accounts port id 0 b (on_connect env p b) (on_connect-Keeps env p b good)
  step-Accounts env (asks p i request now) b proper good =
      let ports = remember_port p b.connected in
      let remembered = record b { connected = ports } in
      remembered-Accounts (one_if (eqb p port && eqb i id)) ports b
        (handle env p i request now remembered)
        (handle-Accounts port id env p i request now remembered proper good)
  step-Accounts env (hands_over p worker) b proper good =
      Keeps-Accounts port id 0 b (on_adopt p worker b) (on_adopt-Keeps p worker b good)
  step-Accounts env (responds worker k a now) b proper good =
      Keeps-Accounts port id 0 b _ (on_response-Keeps port id env worker k a now b good)
  step-Accounts env spawn_times_out b proper good =
      Keeps-Accounts port id 0 b _ (spawn_deadline-Keeps env b.recruitment b good)
  step-Accounts env (probe_times_out k) b proper good =
      Keeps-Accounts port id 0 b _ (probe_deadline-Keeps port id env k b good)
  step-Accounts env release_times_out b proper good =
      Keeps-Accounts port id 0 b _ (release_deadline-Keeps port id env b good)
  step-Accounts env (watchdog_fires now) b proper good =
      Keeps-Accounts port id 0 b _ (watch-Keeps port id now b good)
  step-Accounts env (hosting_fails worker) b proper good =
      Keeps-Accounts port id 0 b _ (hosting_error-Keeps port id env worker b good)

  run-Accounts :
      (env : Env) (events : List Event) (b : Broker)
      → all is_proper events ≡ true
      → IsGood b.traffic
      → Accounts port id (times_asked events) b (run env events b)
  unfolding run times_asked
  run-Accounts env [] b proper good = record { good = good; same = omega arith }
  run-Accounts env (e ∷ events) b proper good =
      let first =
        step-Accounts env e b (and_left (is_proper e) (all is_proper events) proper) good in
      let rest =
        run-Accounts env events (step env e b)
          (and_right (is_proper e) (all is_proper events) proper) first.good in
      record { good = rest.good; same = omega (arith, rest.same, first.same) }

  started-IsGood : IsGood started.traffic
  started-IsGood = record { routes_below = tt; probes_below = tt; passable = tt; queued = tt }

  started-ledger : ledger port id started ≡ 0
  unfolding ledger traffic_ledger owed_routes owed_backlog owed_slots answers
  started-ledger = refl

  -- Where no tab sends the broker's own `ping` and `releasePool`: after any sequence of events, the
  -- routes, the backlog and the queue for slots that hold a tab's request under an id, and the
  -- answers to it that were posted, are together as many as the times the tab made it. So a
  -- request is not lost, whatever workers fall silent, and is not answered twice.
  pub broker_accounts :
      (env : Env) (events : List Event)
      → all is_proper events ≡ true
      → ledger port id (run env events started) ≡ times_asked events
  broker_accounts env events proper =
      let k = run-Accounts env events started proper started-IsGood in
      k.same ∙ ap (λ n. n + times_asked events) started-ledger ∙ omega arith
