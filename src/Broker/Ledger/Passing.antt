-- ===== src/Broker/Ledger/Passing.antt =====
-- Passing requests on, and answering them, keeps the ledger.
use remelon_db.Prelude.{
  ℕ, ◌+◌, ◌<◌, ◌≡◌, refl, ◌∙◌, String, true, Option, none, some, List, [], ◌∷◌, arith, eqb, All,
  All-append, if_cases, option_cases,
}
use remelon_db.Prelude.Ids.{get_at, set_at, remove_at, set_at-new, get_at-new, AreBelow-suc}
use remelon_db.Broker.{Posted, Request, Answer, failed, answered, requested}
use remelon_db.Broker.State.{Asker, page, reopen, Pending, Route, passed, Traffic, Broker, post}
use remelon_db.Broker.Traffic.{
  dispatch, send, send_all, flush_backlog, reopened, post_to, undo, fail_all, fail_backlog,
}
use remelon_db.Broker.Epoch.{is_work}
use remelon_db.Broker.Ledger.{
  IsPassable, IsGood, one_if, is_asker, owed_by, owed_routes, owed_backlog, is_answer, answers,
  traffic_ledger, owed_routes-append, answers-append,
}

-- `n` more requests are owed an answer, or have one; the slots are the same
pub record Keeps (port id n : ℕ) (b after : Broker) : Type 0 where
  pub good : IsGood after.traffic
  pub same : traffic_ledger port id after.traffic ≡ traffic_ledger port id b.traffic + n
  pub slots : after.slots ≡ b.slots

module _ (port id : ℕ) where
  pub Keeps-refl : (b : Broker) → IsGood b.traffic → Keeps port id 0 b b
  Keeps-refl b good = record { good = good; same = omega arith; slots = refl }

  pub Keeps-trans :
      (n m : ℕ) (a b c : Broker)
      → Keeps port id n a b
      → Keeps port id m b c
      → Keeps port id (n + m) a c
  Keeps-trans n m a b c k l = record {
    good = l.good;
    same = omega (arith, k.same, l.same);
    slots = l.slots ∙ k.slots;
  }

  pub Keeps-after :
      (m : ℕ) (a b c : Broker) → Keeps port id 0 a b → Keeps port id m b c → Keeps port id m a c
  Keeps-after m a b c k l = record {
    good = l.good;
    same = omega (arith, k.same, l.same);
    slots = l.slots ∙ k.slots;
  }

  -- a message that is posted, which counts if it is the answer
  pub post-ledger :
      (m : Posted) (t : Traffic)
      → traffic_ledger port id (post m t) ≡ traffic_ledger port id t + one_if (is_answer port id m)
  unfolding traffic_ledger answers
  post-ledger m t = omega (arith, answers-append port id t.sent (m ∷ []))

  pub post-IsGood : (m : Posted) (t : Traffic) → IsGood t → IsGood (post m t)
  post-IsGood m t good = record {
    routes_below = good.routes_below;
    probes_below = good.probes_below;
    passable = good.passable;
    queued = good.queued;
  }

  add_route-IsGood :
      (route : Route) (t : Traffic)
      → IsPassable t.probes (t.next_route, route)
      → IsGood t
      → IsGood
          (record t { next_route = t.next_route + 1; routes = set_at t.next_route route t.routes })
  add_route-IsGood route t passable good =
      rw (set_at-new t.next_route route t.routes good.routes_below) (record {
        routes_below =
            All-append (λ e. e.0 < t.next_route + 1) t.routes ((t.next_route, route) ∷ [])
              (AreBelow-suc t.next_route t.routes good.routes_below) (omega arith, tt);
        probes_below = AreBelow-suc t.next_route t.probes good.probes_below;
        passable =
            All-append (IsPassable t.probes) t.routes ((t.next_route, route) ∷ []) good.passable
              (passable, tt);
        queued = good.queued;
      })

  add_route-ledger :
      (route : Route) (t : Traffic)
      → IsGood t
      → traffic_ledger port id
          (record t { next_route = t.next_route + 1; routes = set_at t.next_route route t.routes })
        ≡ traffic_ledger port id t + owed_by port id route
  unfolding traffic_ledger owed_routes
  add_route-ledger route t good =
      rw (set_at-new t.next_route route t.routes good.routes_below)
        (omega (arith, owed_routes-append port id t.routes ((t.next_route, route) ∷ [])))

  pub dispatch-lem :
      (o : Option ℕ) (route : Route) (request : Request) (t : Traffic)
      → IsPassable t.probes (t.next_route, route)
      → IsGood t
      → IsGood (dispatch o route request t)
        × (traffic_ledger port id (dispatch o route request t)
            ≡ traffic_ledger port id t + owed_by port id route)
  unfolding is_answer
  dispatch-lem none route request t passable good =
      (add_route-IsGood route t passable good, add_route-ledger route t good)
  dispatch-lem (some p) route request t passable good =
      let added : Traffic = record t {
        next_route = t.next_route + 1;
        routes = set_at t.next_route route t.routes;
      } in
      (
        post-IsGood (requested p t.next_route request) added
            (add_route-IsGood route t passable good),
        post-ledger (requested p t.next_route request) added
            ∙ omega (arith, add_route-ledger route t good),
      )

  pub send-Keeps :
      (p : Pending) (b : Broker)
      → is_work p.request ≡ true
      → IsGood b.traffic
      → Keeps port id (one_if (is_asker port id p.asker)) b (send p b)
  unfolding send owed_by
  send-Keeps p b work good =
      let passable : IsPassable b.traffic.probes (b.traffic.next_route, passed p) =
        (work, get_at-new b.traffic.next_route b.traffic.probes good.probes_below) in
      let (sound, same) =
        dispatch-lem b.compute.port (passed p) p.request b.traffic passable good in
      record { good = sound; same = same; slots = refl }

  send_all-Keeps :
      (items : List Pending) (b : Broker)
      → All (λ p. is_work p.request ≡ true) items
      → IsGood b.traffic
      → Keeps port id (owed_backlog port id items) b (send_all items b)
  unfolding send_all owed_backlog
  send_all-Keeps [] b works good = Keeps-refl b good
  send_all-Keeps (p ∷ items) b (work, works) good =
      let first = send-Keeps p b work good in
      Keeps-trans (one_if (is_asker port id p.asker)) (owed_backlog port id items) b (send p b)
        (send_all items (send p b)) first (send_all-Keeps items (send p b) works first.good)

  -- a backlog that was taken, and what became of its items
  taken-Keeps :
      (b after : Broker)
      → Keeps port id
          (owed_backlog port id b.traffic.backlog)
          (record b { traffic = record b.traffic { backlog = [] } })
          after
      → Keeps port id 0 b after
  unfolding traffic_ledger owed_backlog
  taken-Keeps b after k = record { good = k.good; same = omega (arith, k.same); slots = k.slots }

  taken-IsGood : (t : Traffic) → IsGood t → IsGood (record t { backlog = [] })
  taken-IsGood t good = record {
    routes_below = good.routes_below;
    probes_below = good.probes_below;
    passable = good.passable;
    queued = tt;
  }

  pub flush_backlog-Keeps : (b : Broker) → IsGood b.traffic → Keeps port id 0 b (flush_backlog b)
  unfolding flush_backlog
  flush_backlog-Keeps b good = taken-Keeps b (flush_backlog b) (
      send_all-Keeps b.traffic.backlog (record b { traffic = record b.traffic { backlog = [] } })
        good.queued (taken-IsGood b.traffic good))

  pub reopened-Keeps : (p : ℕ) (b : Broker) → IsGood b.traffic → Keeps port id 0 b (reopened p b)
  unfolding reopened
  reopened-Keeps p b good =
      option_cases (Keeps port id 0 b) (get_at p b.compute.reopens) (λ nothing. Keeps-refl b good)
        (λ n found.
          if_cases (Keeps port id 0 b) (eqb n 1)
            (λ last.
              let ready = record b {
                compute = record b.compute {
                  ready = true;
                  reopens = remove_at p b.compute.reopens;
                };
              } in
              let k = flush_backlog-Keeps ready good in
              record { good = k.good; same = k.same; slots = k.slots })
            (λ more. record { good = good; same = omega arith; slots = refl }))

  pub post_to-Keeps :
      (a : Asker) (answer : Answer) (b : Broker)
      → IsGood b.traffic
      → Keeps port id (one_if (is_asker port id a)) b (post_to a answer b)
  unfolding post_to is_answer
  post_to-Keeps (page p i) answer b good = record {
    good = post-IsGood (answered p i answer) b.traffic good;
    same = post-ledger (answered p i answer) b.traffic;
    slots = refl;
  }
  post_to-Keeps (reopen p) answer b good = reopened-Keeps p b good

  pub undo-Keeps :
      (o : Option (String × ℕ)) (b : Broker) → IsGood b.traffic → Keeps port id 0 b (undo o b)
  unfolding undo
  undo-Keeps none b good = Keeps-refl b good
  undo-Keeps (some (name, p)) b good = record { good = good; same = omega arith; slots = refl }

  fail_all-Keeps :
      (reason : String) (items : List Pending) (b : Broker)
      → IsGood b.traffic
      → Keeps port id (owed_backlog port id items) b (fail_all reason items b)
  unfolding fail_all owed_backlog
  fail_all-Keeps reason [] b good = Keeps-refl b good
  fail_all-Keeps reason (p ∷ items) b good =
      let undone = undo p.on_failure b in
      let told = post_to p.asker (failed reason) undone in
      let first = undo-Keeps p.on_failure b good in
      let second = post_to-Keeps p.asker (failed reason) undone first.good in
      let rest = fail_all-Keeps reason items told second.good in
      Keeps-trans (one_if (is_asker port id p.asker)) (owed_backlog port id items) b told
        (fail_all reason items told)
        (Keeps-after (one_if (is_asker port id p.asker)) b undone told first second) rest

  pub fail_backlog-Keeps :
      (reason : String) (b : Broker) → IsGood b.traffic → Keeps port id 0 b (fail_backlog reason b)
  unfolding fail_backlog
  fail_backlog-Keeps reason b good = taken-Keeps b (fail_backlog reason b) (
      fail_all-Keeps reason b.traffic.backlog
        (record b { traffic = record b.traffic { backlog = [] } }) (taken-IsGood b.traffic good))
