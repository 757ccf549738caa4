-- ===== src/Broker/Ledger/Responses.antt =====
-- Answers of the compute tab keep the ledger.
use remelon_db.Prelude.{
  ℕ, ◌+◌, ◌<◌, ◌≡◌, refl, ◌∙◌, true, none, some, List, arith, if_cases, option_cases, if◌then◌else◌,
}
use remelon_db.Prelude.Ids.{
  get_at, set_at, remove_at, AreBelow, All-remove_at, All-get_at, AreBelow-set_at,
}
use remelon_db.Broker.{Answer, done, failed}
use remelon_db.Broker.State.{Pending, Route, passed, pinged, retired, Probe, Traffic, Broker, Env}
use remelon_db.Broker.Traffic.{post_to}
use remelon_db.Broker.Epoch.{
  same_port, transformed, settle, mark_answered, deliver, release_idle, on_response,
}
use remelon_db.Broker.Ledger.{
  IsPassable, IsGood, one_if, is_asker, owed_by, traffic_ledger, owed_routes-remove_at,
}
use remelon_db.Broker.Ledger.Passing.{Keeps, Keeps-refl, Keeps-after, post_to-Keeps, undo-Keeps}
use remelon_db.Broker.Ledger.Hosting.{Keeps-aside}
use remelon_db.Broker.Ledger.Passable.{set_at-free, still-IsPassable}
use remelon_db.Broker.Ledger.Resets.{finish_epoch_reset-Keeps, reset_epoch-Keeps}

module _ (port id : ℕ) where
  settle-Keeps :
      (p : Pending) (answer : Answer) (b : Broker)
      → IsGood b.traffic
      → Keeps port id 0 b (settle p answer b)
  unfolding settle
  settle-Keeps p (done result) b good = Keeps-refl port id b good
  settle-Keeps p (failed error) b good = undo-Keeps port id p.on_failure b good

  -- the pings change, and no id of a passed route is among them
  pub probes-IsGood :
      (t : Traffic) (probes : List (ℕ × Probe))
      → AreBelow t.next_route probes
      → ((k : ℕ) → get_at k t.probes ≡ none → k < t.next_route → get_at k probes ≡ none)
      → IsGood t
      → IsGood (record t { probes = probes })
  probes-IsGood t probes below apart good = record {
    routes_below = good.routes_below;
    probes_below = below;
    passable =
        still-IsPassable t.probes probes t.next_route apart t.routes good.routes_below
          good.passable;
    queued = good.queued;
  }

  -- the pings do not count
  pub ledger-probes :
      (probes : List (ℕ × Probe)) (t : Traffic)
      → traffic_ledger port id (record t { probes = probes }) ≡ traffic_ledger port id t + 0
  unfolding traffic_ledger
  ledger-probes probes t = omega arith

  deliver-Keeps :
      (env : Env) (k : ℕ) (route : Route) (answer : Answer) (b : Broker)
      → IsGood b.traffic
      → Keeps port id (owed_by port id route) b (deliver env k route answer b)
  unfolding deliver owed_by
  deliver-Keeps env k (passed p) answer b good =
      let settled = settle-Keeps p answer b good in
      Keeps-after port id (one_if (is_asker port id p.asker)) b (settle p answer b)
        (post_to p.asker (transformed env p.reads_version answer) (settle p answer b)) settled
        (post_to-Keeps port id p.asker (transformed env p.reads_version answer) (settle p answer b)
          settled.good)
  deliver-Keeps env k pinged answer b good =
      option_cases (Keeps port id 0 b) (get_at k b.traffic.probes)
        (λ nothing. Keeps-refl port id b good)
        (λ probe found.
          let lt =
            All-get_at (λ (e : ℕ × Probe). e.0 < b.traffic.next_route) k b.traffic.probes found
              good.probes_below in
          let probes = set_at k (mark_answered probe) b.traffic.probes in
          record {
            good =
                probes-IsGood b.traffic probes
                  (AreBelow-set_at b.traffic.next_route k (mark_answered probe) b.traffic.probes lt
                    good.probes_below)
                  (λ j free below.
                    set_at-free k j probe (mark_answered probe) b.traffic.probes found free)
                  good;
            same = ledger-probes probes b.traffic;
            slots = refl;
          })
  deliver-Keeps env k (retired target) answer b good =
      finish_epoch_reset-Keeps port id env target b good

  release_idle-Keeps :
      (env : Env) (b : Broker) → IsGood b.traffic → Keeps port id 0 b (release_idle env b)
  unfolding release_idle
  release_idle-Keeps env b good =
      if_cases (Keeps port id 0 b) _ (λ idle. reset_epoch-Keeps port id env b good)
        (λ busy. Keeps-refl port id b good)

  -- the routes without one of them
  pub remove_route-IsGood :
      (k : ℕ) (t : Traffic) → IsGood t → IsGood (record t { routes = remove_at k t.routes })
  remove_route-IsGood k t good = record {
    routes_below = All-remove_at (λ e. e.0 < t.next_route) k t.routes good.routes_below;
    probes_below = good.probes_below;
    passable = All-remove_at (IsPassable t.probes) k t.routes good.passable;
    queued = good.queued;
  }

  remove_route-ledger :
      (k : ℕ) (t : Traffic) (route : Route)
      → get_at k t.routes ≡ some route
      → traffic_ledger port id t
        ≡ traffic_ledger port id (record t { routes = remove_at k t.routes })
          + owed_by port id route
  unfolding traffic_ledger
  remove_route-ledger k t route found =
      omega (arith, owed_routes-remove_at port id k t.routes found)

  pub on_response-Keeps :
      (env : Env) (from k : ℕ) (answer : Answer) (now : ℕ) (b : Broker)
      → IsGood b.traffic
      → Keeps port id 0 b (on_response env from k answer now b)
  unfolding on_response
  on_response-Keeps env from k answer now b good =
      let heard : Broker =
        if same_port b.compute.port from
        then record b { compute = record b.compute { has_answered = true } }
        else b in
      let first : Keeps port id 0 b heard =
        if_cases (Keeps port id 0 b) (same_port b.compute.port from)
          (λ same.
            Keeps-aside port id b (record b { compute = record b.compute { has_answered = true } })
              good refl refl)
          (λ other. Keeps-refl port id b good) in
      option_cases (Keeps port id 0 b) (get_at k b.traffic.routes) (λ nothing. first)
        (λ route found.
          let taken : Broker = record heard {
            traffic = record b.traffic { routes = remove_at k b.traffic.routes };
            compute = record heard.compute { last_response_at = now };
          } in
          let told =
            deliver-Keeps env k route answer taken (remove_route-IsGood k b.traffic good) in
          let kept : Keeps port id 0 b (deliver env k route answer taken) = record {
            good = told.good;
            same = omega (arith, told.same, remove_route-ledger k b.traffic route found);
            slots = told.slots ∙ first.slots;
          } in
          Keeps-after port id 0 b (deliver env k route answer taken)
            (release_idle env (deliver env k route answer taken)) kept
            (release_idle-Keeps env (deliver env k route answer taken) kept.good))
