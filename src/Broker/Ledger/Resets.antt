-- ===== src/Broker/Ledger/Resets.antt =====
-- A reset of the epoch keeps the ledger.
use remelon_db.Prelude.{
  ℕ, ◌+◌, ◌≡◌, refl, ap, true, none, some, is_some, List, [], ◌∷◌, arith, All, All-append, is_empty,
  if_cases, if_not_cases, option_cases,
}
use remelon_db.Broker.{release_pool}
use remelon_db.Broker.State.{Pending, Route, passed, pinged, retired, Probe, Broker, Env}
use remelon_db.Broker.Recruit.{restart_recruitment}
use remelon_db.Broker.Epoch.{
  same_port, is_work, stranded, requeue, finish_epoch_reset, reset_port, reset_epoch,
}
use remelon_db.Broker.Ledger.{
  IsPassable, IsGood, one_if, is_asker, owed_by, owed_routes, owed_backlog, traffic_ledger,
  owed_backlog-append,
}
use remelon_db.Broker.Ledger.Passing.{Keeps, Keeps-refl, Keeps-after, dispatch-lem}
use remelon_db.Broker.Ledger.Hosting.{restart_recruitment-Keeps}
use remelon_db.Broker.Ledger.Passable.{stranded-work}

module _ (port id : ℕ) where
  owed_backlog-stranded :
      (probes : List (ℕ × Probe)) (routes : List (ℕ × Route))
      → All (IsPassable probes) routes
      → owed_backlog port id (stranded routes) ≡ owed_routes port id routes
  unfolding stranded owed_backlog owed_routes owed_by
  owed_backlog-stranded probes [] h = refl
  owed_backlog-stranded probes ((k, passed p) ∷ routes) ((work, apart), h) =
      rw work
        (ap (λ n. one_if (is_asker port id p.asker) + n) (owed_backlog-stranded probes routes h))
  owed_backlog-stranded probes ((k, pinged) ∷ routes) (p, h) =
      omega (arith, owed_backlog-stranded probes routes h)
  owed_backlog-stranded probes ((k, retired target) ∷ routes) (p, h) =
      omega (arith, owed_backlog-stranded probes routes h)

  requeue-Keeps : (b : Broker) → IsGood b.traffic → Keeps port id 0 b (requeue b)
  unfolding requeue traffic_ledger owed_routes
  requeue-Keeps b good = record {
    good = record {
      routes_below = tt;
      probes_below = good.probes_below;
      passable = tt;
      queued =
          All-append (λ (p : Pending). is_work p.request ≡ true) (stranded b.traffic.routes)
            b.traffic.backlog (stranded-work b.traffic.probes b.traffic.routes good.passable)
            good.queued;
    };
    same = omega (
      arith,
      owed_backlog-append port id (stranded b.traffic.routes) b.traffic.backlog,
      owed_backlog-stranded b.traffic.probes b.traffic.routes good.passable,
    );
    slots = refl;
  }

  pub finish_epoch_reset-Keeps :
      (env : Env) (target : ℕ) (b : Broker)
      → IsGood b.traffic
      → Keeps port id 0 b (finish_epoch_reset env target b)
  unfolding finish_epoch_reset
  finish_epoch_reset-Keeps env target b good =
      let reset = requeue-Keeps b good in
      if_not_cases (Keeps port id 0 b) (same_port b.compute.port target)
        (λ other. Keeps-refl port id b good)
        (λ same.
          if_cases (Keeps port id 0 b) (is_empty (requeue b).traffic.backlog) (λ idle. reset)
            (λ busy.
              Keeps-after port id 0 b (requeue b) (restart_recruitment env none (requeue b)) reset
                (restart_recruitment-Keeps port id env none (requeue b) reset.good)))

  reset_port-Keeps :
      (env : Env) (target : ℕ) (b : Broker)
      → IsGood b.traffic
      → Keeps port id 0 b (reset_port env target b)
  unfolding reset_port owed_by
  reset_port-Keeps env target b good =
      let (sound, same) =
        dispatch-lem port id (some target) (retired target) release_pool b.traffic tt good in
      if_cases (Keeps port id 0 b) (same_port b.compute.retiring target)
        (λ retiring. Keeps-refl port id b good)
        (λ live.
          if_not_cases (Keeps port id 0 b) (is_some b.compute.hosted)
            (λ by_tab. finish_epoch_reset-Keeps env target b good)
            (λ here. record { good = sound; same = same; slots = refl }))

  pub reset_epoch-Keeps :
      (env : Env) (b : Broker) → IsGood b.traffic → Keeps port id 0 b (reset_epoch env b)
  unfolding reset_epoch
  reset_epoch-Keeps env b good =
      option_cases (Keeps port id 0 b) b.compute.port (λ nothing. Keeps-refl port id b good)
        (λ target found. reset_port-Keeps env target b good)
