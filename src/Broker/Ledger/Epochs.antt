-- ===== src/Broker/Ledger/Epochs.antt =====
-- Probes, releases and faults of the compute tab keep the ledger.
use remelon_db.Prelude.{
  ℕ, ◌+◌, ◌-◌, ◌<◌, ◌≡◌, refl, sym, ap, ◌∙◌, true, false, not, ◌&&◌, none, some, List, [], ◌∷◌,
  arith, leb, All, All-append, Option-cases, inl, inr, if_cases, if_not_cases, option_cases,
  if◌then◌else◌,
}
use remelon_db.Prelude.Ids.{
  get_at, set_at, remove_at, set_at-new, get_at-remove_at-none, All-remove_at, All-get_at,
  remove_at-none, AreBelow-set_at,
}
use remelon_db.Broker.{ping}
use remelon_db.Broker.State.{Route, passed, pinged, retired, Probe, Traffic, Broker, Env}
use remelon_db.Broker.Traffic.{dispatch}
use remelon_db.Broker.Recruit.{restart_recruitment}
use remelon_db.Broker.Epoch.{
  same_port, reset_epoch, probe_port, probe_compute, probe_deadline, release_deadline, watch,
  hosting_error,
}
use remelon_db.Broker.Ledger.{
  IsPassable, IsGood, owed_by, owed_routes, traffic_ledger, owed_routes-remove_at,
}
use remelon_db.Broker.Ledger.Passing.{Keeps, Keeps-refl, Keeps-after, dispatch-lem}
use remelon_db.Broker.Ledger.Hosting.{Keeps-aside, restart_recruitment-Keeps}
use remelon_db.Broker.Ledger.Passable.{none-ne-some, still-IsPassable, set_at-above}
use remelon_db.Broker.Ledger.Resets.{finish_epoch_reset-Keeps, reset_epoch-Keeps}
use remelon_db.Broker.Ledger.Responses.{probes-IsGood, ledger-probes, remove_route-IsGood}

module _ (port id : ℕ) where
  probe_port-Keeps :
      (target : ℕ) (b : Broker) → IsGood b.traffic → Keeps port id 0 b (probe_port target b)
  unfolding probe_port owed_by
  probe_port-Keeps target b good =
      let probe : Probe = record { target = target; answered = false } in
      let n = b.traffic.next_route in
      let (sound, same) = dispatch-lem port id (some target) pinged ping b.traffic tt good in
      if_cases (Keeps port id 0 b) (same_port b.compute.retiring target)
        (λ retiring. Keeps-refl port id b good)
        (λ live. record {
          good = record {
            routes_below = sound.routes_below;
            probes_below =
                AreBelow-set_at (n + 1) n probe b.traffic.probes (omega arith) sound.probes_below;
            passable = rw (set_at-new n pinged b.traffic.routes good.routes_below) (
                All-append (IsPassable (set_at n probe b.traffic.probes)) b.traffic.routes
                  ((n, pinged) ∷ [])
                  (still-IsPassable b.traffic.probes (set_at n probe b.traffic.probes) n
                    (λ k free lt. set_at-above n k probe b.traffic.probes free lt) b.traffic.routes
                    good.routes_below good.passable)
                  (tt, tt));
            queued = good.queued;
          };
          same =
              ledger-probes port id (set_at n probe b.traffic.probes)
                (dispatch (some target) pinged ping b.traffic)
              ∙ omega (arith, same);
          slots = refl;
        })

  pub probe_compute-Keeps : (b : Broker) → IsGood b.traffic → Keeps port id 0 b (probe_compute b)
  unfolding probe_compute
  probe_compute-Keeps b good =
      option_cases (Keeps port id 0 b) b.compute.port (λ nothing. Keeps-refl port id b good)
        (λ target found. probe_port-Keeps target b good)

  -- what stands under the id of a ping is no request of a tab
  owed_routes-ping :
      (k : ℕ) (probes : List (ℕ × Probe)) (probe : Probe) (routes : List (ℕ × Route))
      → get_at k probes ≡ some probe
      → All (IsPassable probes) routes
      → owed_routes port id (remove_at k routes) ≡ owed_routes port id routes
  unfolding owed_by
  owed_routes-ping k probes probe routes found passable = elim (Option-cases (get_at k routes)) [
    | inl nothing ↦ ap (λ rs. owed_routes port id rs) (remove_at-none k routes nothing)
    | inr (passed p, there) ↦
        absurd
          (none-ne-some (sym (All-get_at (IsPassable probes) k routes there passable).1 ∙ found))
    | inr (pinged, there) ↦ omega (arith, owed_routes-remove_at port id k routes there)
    | inr (retired target, there) ↦ omega (arith, owed_routes-remove_at port id k routes there)
  ]

  deadline-ledger :
      (k : ℕ) (probe : Probe) (t : Traffic)
      → get_at k t.probes ≡ some probe
      → All (IsPassable t.probes) t.routes
      → traffic_ledger port id
          (record t { routes = remove_at k t.routes; probes = remove_at k t.probes })
        ≡ traffic_ledger port id t + 0
  unfolding traffic_ledger
  deadline-ledger k probe t found passable =
      omega (arith, owed_routes-ping k t.probes probe t.routes found passable)

  pub probe_deadline-Keeps :
      (env : Env) (k : ℕ) (b : Broker)
      → IsGood b.traffic
      → Keeps port id 0 b (probe_deadline env k b)
  unfolding probe_deadline
  probe_deadline-Keeps env k b good =
      option_cases (Keeps port id 0 b) (get_at k b.traffic.probes)
        (λ nothing. Keeps-refl port id b good)
        (λ probe found.
          let t : Traffic = record b.traffic { routes = remove_at k b.traffic.routes } in
          let after : Broker = record b {
            traffic = record b.traffic {
              routes = remove_at k b.traffic.routes;
              probes = remove_at k b.traffic.probes;
            };
          } in
          let over : Keeps port id 0 b after = record {
            good =
                probes-IsGood port id t (remove_at k b.traffic.probes)
                  (All-remove_at (λ (e : ℕ × Probe). e.0 < b.traffic.next_route) k b.traffic.probes
                    good.probes_below)
                  (λ j free lt. get_at-remove_at-none j k b.traffic.probes free)
                  (remove_route-IsGood port id k b.traffic good);
            same = deadline-ledger k probe b.traffic found good.passable;
            slots = refl;
          } in
          if_cases (Keeps port id 0 b) (not probe.answered && same_port b.compute.port probe.target)
            (λ silent.
              Keeps-after port id 0 b after (reset_epoch env after) over
                (reset_epoch-Keeps port id env after over.good))
            (λ alive. over))

  pub release_deadline-Keeps :
      (env : Env) (b : Broker) → IsGood b.traffic → Keeps port id 0 b (release_deadline env b)
  unfolding release_deadline
  release_deadline-Keeps env b good =
      option_cases (Keeps port id 0 b) b.compute.release_timer
        (λ nothing. Keeps-refl port id b good)
        (λ target found. finish_epoch_reset-Keeps port id env target b good)

  pub watch-Keeps : (now : ℕ) (b : Broker) → IsGood b.traffic → Keeps port id 0 b (watch now b)
  unfolding watch
  watch-Keeps now b good =
      let off = record b { compute = record b.compute { watchdog = false } } in
      let aside = Keeps-aside port id b off good refl refl in
      let probed : Keeps port id 0 b
          (if leb 2000 (now - b.compute.last_response_at) then probe_compute off else off) =
        if_cases (Keeps port id 0 b) (leb 2000 (now - b.compute.last_response_at))
          (λ silent.
            Keeps-after port id 0 b off (probe_compute off) aside (probe_compute-Keeps off good))
          (λ recent. aside) in
      if_not_cases (Keeps port id 0 b) b.compute.watchdog (λ unset. Keeps-refl port id b good)
        (λ set.
          if_cases (Keeps port id 0 b) _ (λ idle. aside)
            (λ busy. record { good = probed.good; same = probed.same; slots = probed.slots }))

  pub hosting_error-Keeps :
      (env : Env) (p : ℕ) (b : Broker)
      → IsGood b.traffic
      → Keeps port id 0 b (hosting_error env p b)
  unfolding hosting_error
  hosting_error-Keeps env p b good =
      let fallen = record b {
        compute = record b.compute { hosting_failed = true; hosted = none; port = none };
      } in
      if_cases (Keeps port id 0 b) (same_port b.compute.hosted p)
        (λ ours.
          Keeps-after port id 0 b fallen (restart_recruitment env none fallen)
            (Keeps-aside port id b fallen good refl refl)
            (restart_recruitment-Keeps port id env none fallen good))
        (λ other. Keeps-refl port id b good)
