-- ===== src/Broker/Ledger/Hosting.antt =====
-- Looking for a host, and adopting a worker, keeps the ledger.
use remelon_db.Prelude.{
  ℕ, ◌+◌, ◌≡◌, refl, String, Bool, true, false, not, ◌&&◌, Option, none, some, is_some, or_else,
  List, [], ◌∷◌, ◌++◌, arith, All-append, is_empty, length, if_cases, option_cases,
}
use remelon_db.Prelude.Map.{get}
use remelon_db.Prelude.Ids.{set_at, get_at-new}
use remelon_db.Broker.{opfs, open_database, spawn_worker, controlled}
use remelon_db.Broker.State.{reopen, Pending, passed, Broker, Env}
use remelon_db.Broker.Traffic.{dispatch, flush_backlog, fail_backlog}
use remelon_db.Broker.Recruit.{
  stop_recruitment, reopen_all, adopt_compute_port, spawn_compute_here, find_asker, reverse,
  preferred_ports, no_tab, ask_candidate, asked_ports, request_spawn, restart_recruitment, forward,
}
use remelon_db.Broker.Epoch.{is_work}
use remelon_db.Broker.Ledger.{
  IsPassable, IsGood, one_if, is_asker, owed_by, owed_backlog, is_answer, traffic_ledger,
  owed_backlog-append,
}
use remelon_db.Broker.Ledger.Passing.{
  Keeps, Keeps-refl, Keeps-after, post-ledger, post-IsGood, dispatch-lem, send-Keeps,
  flush_backlog-Keeps, fail_backlog-Keeps,
}

module _ (port id : ℕ) where
  -- a state with the same traffic and slots
  pub Keeps-aside :
      (a b : Broker)
      → IsGood a.traffic
      → b.traffic ≡ a.traffic
      → b.slots ≡ a.slots
      → Keeps port id 0 a b
  Keeps-aside a b good same slots = record {
    good = rw same good;
    same = rw same (omega arith);
    slots = slots;
  }

  reopen_all-Keeps :
      (p : ℕ) (names : List String) (b : Broker)
      → IsGood b.traffic
      → Keeps port id 0 b (reopen_all p names b)
  unfolding reopen_all owed_by
  reopen_all-Keeps p [] b good = Keeps-refl port id b good
  reopen_all-Keeps p (name ∷ names) b good =
      let request = open_database name (or_else (get name b.holding.storage) opfs) in
      let route : Pending = record {
        asker = reopen p;
        request = request;
        reads_version = false;
        on_failure = none;
      } in
      let after = record b { traffic = dispatch (some p) (passed route) request b.traffic } in
      let passable : IsPassable b.traffic.probes (b.traffic.next_route, passed route) =
        (refl, get_at-new b.traffic.next_route b.traffic.probes good.probes_below) in
      let (sound, same) =
        dispatch-lem port id (some p) (passed route) request b.traffic passable good in
      let first : Keeps port id 0 b after = record { good = sound; same = same; slots = refl } in
      Keeps-after port id 0 b after (reopen_all p names after) first
        (reopen_all-Keeps p names after sound)

  pub adopt_compute_port-Keeps :
      (p : ℕ) (b : Broker) → IsGood b.traffic → Keeps port id 0 b (adopt_compute_port p b)
  unfolding adopt_compute_port
  adopt_compute_port-Keeps p b good =
      let adopted = stop_recruitment (record b {
        compute = record b.compute { port = some p; has_answered = false };
        holding = record b.holding { to_restore = [] };
      }) in
      let ready = record adopted { compute = record adopted.compute { ready = true } } in
      let waiting = record adopted {
        compute = record adopted.compute {
          reopens = set_at p (length b.holding.to_restore) adopted.compute.reopens;
        };
      } in
      if_cases (Keeps port id 0 b) (is_empty b.holding.to_restore)
        (λ none_held.
          Keeps-after port id 0 b ready (flush_backlog ready) (Keeps-aside b ready good refl refl)
            (flush_backlog-Keeps port id ready good))
        (λ held.
          Keeps-after port id 0 b waiting (reopen_all p b.holding.to_restore waiting)
            (Keeps-aside b waiting good refl refl)
            (reopen_all-Keeps p b.holding.to_restore waiting good))

  spawn_compute_here-Keeps :
      (env : Env) (b : Broker) → IsGood b.traffic → Keeps port id 0 b (spawn_compute_here env b).0
  unfolding spawn_compute_here
  spawn_compute_here-Keeps env b good =
      let P : Broker × Bool → Type 0 = λ out. Keeps port id 0 b out.0 in
      option_cases P env.new_worker (λ no_class. Keeps-refl port id b good)
        (λ construct here.
          if_cases P b.compute.hosting_failed (λ failed. Keeps-refl port id b good)
            (λ may.
              option_cases P (construct b.compute.spawned)
                (λ thrown. record { good = good; same = omega arith; slots = refl })
                (λ p made.
                  let hosted = record b {
                    compute = record b.compute { spawned = b.compute.spawned + 1; hosted = some p };
                  } in
                  Keeps-after port id 0 b hosted (adopt_compute_port p hosted)
                    (Keeps-aside b hosted good refl refl)
                    (adopt_compute_port-Keeps p hosted good))))

  ask_candidate-Keeps :
      (asked : List ℕ) (o : Option ℕ) (b : Broker)
      → IsGood b.traffic
      → Keeps port id 0 b (ask_candidate asked o b)
  unfolding ask_candidate is_answer
  ask_candidate-Keeps asked none b good =
      Keeps-after port id 0 b (stop_recruitment b) (fail_backlog no_tab (stop_recruitment b))
        (Keeps-aside b (stop_recruitment b) good refl refl)
        (fail_backlog-Keeps port id no_tab (stop_recruitment b) good)
  ask_candidate-Keeps asked (some p) b good = record {
    good = post-IsGood port id (controlled p spawn_worker) b.traffic good;
    same = post-ledger port id (controlled p spawn_worker) b.traffic;
    slots = refl;
  }

  pub request_spawn-Keeps :
      (env : Env) (preferred : Option ℕ) (b : Broker)
      → IsGood b.traffic
      → Keeps port id 0 b (request_spawn env preferred b)
  unfolding request_spawn
  request_spawn-Keeps env preferred b good =
      let asked = asked_ports b.recruitment in
      let active = record b { recruitment = some (record { asked = asked; timer = false }) } in
      let spawned = spawn_compute_here env active in
      let here =
        Keeps-after port id 0 b active spawned.0 (Keeps-aside b active good refl refl)
          (spawn_compute_here-Keeps env active good) in
      let asker = find_asker asked (preferred_ports preferred ++ reverse b.connected) in
      if_cases (Keeps port id 0 b) (is_some b.compute.port)
        (λ running. Keeps-aside b (stop_recruitment active) good refl refl)
        (λ gone.
          if_cases (Keeps port id 0 b) spawned.1 (λ hosted. here)
            (λ not_hosted.
              Keeps-after port id 0 b spawned.0 (ask_candidate asked asker spawned.0) here
                (ask_candidate-Keeps asked asker spawned.0 here.good)))

  pub restart_recruitment-Keeps :
      (env : Env) (preferred : Option ℕ) (b : Broker)
      → IsGood b.traffic
      → Keeps port id 0 b (restart_recruitment env preferred b)
  unfolding restart_recruitment
  restart_recruitment-Keeps env preferred b good =
      Keeps-after port id 0 b (stop_recruitment b)
        (request_spawn env preferred (stop_recruitment b))
        (Keeps-aside b (stop_recruitment b) good refl refl)
        (request_spawn-Keeps env preferred (stop_recruitment b) good)

  queue-Keeps :
      (p : Pending) (b : Broker)
      → is_work p.request ≡ true
      → IsGood b.traffic
      → Keeps port id
          (one_if (is_asker port id p.asker))
          b
          (record b { traffic = record b.traffic { backlog = b.traffic.backlog ++ (p ∷ []) } })
  unfolding traffic_ledger owed_backlog
  queue-Keeps p b work good = record {
    good = record {
      routes_below = good.routes_below;
      probes_below = good.probes_below;
      passable = good.passable;
      queued =
          All-append (λ (q : Pending). is_work q.request ≡ true) b.traffic.backlog (p ∷ [])
            good.queued (work, tt);
    };
    same = omega (arith, owed_backlog-append port id b.traffic.backlog (p ∷ []));
    slots = refl;
  }

  pub forward-Keeps :
      (env : Env) (from : ℕ) (p : Pending) (b : Broker)
      → is_work p.request ≡ true
      → IsGood b.traffic
      → Keeps port id (one_if (is_asker port id p.asker)) b (forward env from p b)
  unfolding forward
  forward-Keeps env from p b work good =
      let n = one_if (is_asker port id p.asker) in
      let queued = record b {
        traffic = record b.traffic { backlog = b.traffic.backlog ++ (p ∷ []) };
      } in
      let waits = queue-Keeps p b work good in
      if_cases (Keeps port id n b) (is_some b.compute.port && b.compute.ready)
        (λ live. send-Keeps port id p b work good)
        (λ dead.
          if_cases (Keeps port id n b) (not (is_some b.compute.port) && not (is_some b.recruitment))
            (λ idle.
              let k = request_spawn-Keeps env (some from) queued waits.good in
              record { good = k.good; same = omega (arith, k.same, waits.same); slots = k.slots })
            (λ busy. waits))
