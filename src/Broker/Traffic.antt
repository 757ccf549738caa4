-- ===== src/Broker/Traffic.antt =====
-- shared-worker.ts: requests on their way to the compute worker, the backlog, and the answers to
-- those who asked.
use remelon_db.Prelude.{
  ℕ, ◌+◌, ◌-◌, String, true, not, Option, none, some, List, [], ◌∷◌, eqb, filter, is_empty,
  if◌then◌else◌,
}
use remelon_db.Prelude.Map.{get, remove, set}
use remelon_db.Prelude.Ids.{get_at, set_at, remove_at}
use remelon_db.Broker.{Request, Answer, failed, requested, answered}
use remelon_db.Broker.State.{
  Asker, page, reopen, Pending, Route, passed, Traffic, Holding, Broker, post,
}

-- routes.set(nextRouteId++, route), and port.postMessage({ ...request, id: routeId })
abbrev pub dispatch : Option ℕ → Route → Request → Traffic → Traffic
dispatch none route request t = record t {
  next_route = t.next_route + 1;
  routes = set_at t.next_route route t.routes;
}
dispatch (some port) route request t =
    post (requested port t.next_route request)
      (record t { next_route = t.next_route + 1; routes = set_at t.next_route route t.routes })

-- `send`, whose callers have a compute worker
unfoldable pub send : Pending → Broker → Broker
unfolding set_at
send p b = record b {
  traffic = dispatch b.compute.port (passed p) p.request b.traffic;
  compute = record b.compute { watchdog = true };
}

unfoldable pub send_all : List Pending → Broker → Broker
unfolding send
send_all [] b = b
send_all (p ∷ items) b = send_all items (send p b)

unfoldable pub flush_backlog : Broker → Broker
unfolding send_all
flush_backlog b =
    send_all b.traffic.backlog (record b { traffic = record b.traffic { backlog = [] } })

-- the port of a reopening: `reopensPending -= 1`, and what follows at zero
unfoldable pub reopened : ℕ → Broker → Broker
unfolding get_at set_at remove_at flush_backlog
reopened port b = elim (get_at port b.compute.reopens) [
  | none ↦ b
  | some n ↦
      if eqb n 1
      then flush_backlog (record b {
        compute = record b.compute { ready = true; reopens = remove_at port b.compute.reopens };
      })
      else record b {
        compute = record b.compute { reopens = set_at port (n - 1) b.compute.reopens };
      }
]

-- port.postMessage({ id, … }), for a port of those who ask
unfoldable pub post_to : Asker → Answer → Broker → Broker
unfolding reopened
post_to (page port id) answer b = record b { traffic = post (answered port id answer) b.traffic }
post_to (reopen port) answer b = reopened port b

-- `undoHolder`
unfoldable pub undo_holder : String → ℕ → Holding → Holding
undo_holder name port h = elim (get name h.holders) [
  | none ↦ h
  | some ports ↦
      let left = filter (λ p. not (eqb p port)) ports in
      if is_empty left
      then record h { holders = remove name h.holders; storage = remove name h.storage }
      else record h { holders = set name left h.holders }
]

-- onFailure?.()
unfoldable pub undo : Option (String × ℕ) → Broker → Broker
unfolding undo_holder
undo none b = b
undo (some (name, port)) b = record b { holding = undo_holder name port b.holding }

-- the loop of `failBacklog`
unfoldable pub fail_all : String → List Pending → Broker → Broker
unfolding undo post_to
fail_all reason [] b = b
fail_all reason (p ∷ items) b =
    fail_all reason items (post_to p.asker (failed reason) (undo p.on_failure b))

unfoldable pub fail_backlog : String → Broker → Broker
unfolding fail_all
fail_backlog reason b =
    fail_all reason b.traffic.backlog (record b { traffic = record b.traffic { backlog = [] } })
