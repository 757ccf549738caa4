-- ===== src/Broker/Recruit.antt =====
-- shared-worker.ts: finding a host for the compute worker, and adopting the port of one.
pub mod Memory
use remelon_db.Prelude.{
  ℕ, ◌+◌, String, Bool, true, false, not, ◌||◌, ◌&&◌, Option, none, some, is_some, or_else, List,
  [], ◌∷◌, ◌++◌, eqb, any, filter, is_empty, length, leb, if◌then◌else◌,
}
use remelon_db.Prelude.Map.{Map, get, keys}
use remelon_db.Prelude.Ids.{set_at}
use remelon_db.Broker.{Storage, opfs, Request, open_database, spawn_worker, controlled}
use remelon_db.Broker.State.{reopen, Pending, passed, Traffic, Recruitment, Broker, Env, post}
use remelon_db.Broker.Traffic.{dispatch, send, flush_backlog, fail_backlog}

-- `SPAWN_CANDIDATES`
abbrev pub spawn_candidates : ℕ
spawn_candidates = 8

abbrev pub drop_first : List ℕ → List ℕ
drop_first [] = []
drop_first (port ∷ ports) = ports

-- `rememberPort`; a port stands in the list at most once
unfoldable pub remember_port : ℕ → List ℕ → List ℕ
remember_port port ports =
    let moved = filter (λ p. not (eqb p port)) ports ++ (port ∷ []) in
    if leb (length moved) spawn_candidates then moved else drop_first moved

-- `stopRecruitment`, which also stops its timer
abbrev pub stop_recruitment : Broker → Broker
stop_recruitment b = record b { recruitment = none }

-- the loop of `adoptComputePort` over the names that are to be reopened
unfoldable pub reopen_all : ℕ → List String → Broker → Broker
unfolding get set_at
reopen_all port [] b = b
reopen_all port (name ∷ names) b =
    let request = open_database name (or_else (get name b.holding.storage) opfs) in
    let route : Pending = record {
      asker = reopen port;
      request = request;
      reads_version = false;
      on_failure = none;
    } in
    reopen_all port names
      (record b { traffic = dispatch (some port) (passed route) request b.traffic })

-- `adoptComputePort`
unfoldable pub adopt_compute_port : ℕ → Broker → Broker
unfolding flush_backlog reopen_all set_at
adopt_compute_port port b =
    let names = b.holding.to_restore in
    let adopted = stop_recruitment (record b {
      compute = record b.compute { port = some port; has_answered = false };
      holding = record b.holding { to_restore = [] };
    }) in
    if is_empty names
    then flush_backlog (record adopted { compute = record adopted.compute { ready = true } })
    else reopen_all port names (record adopted {
      compute = record adopted.compute {
        reopens = set_at port (length names) adopted.compute.reopens;
      };
    })

-- `spawnComputeHere`: the state after it, and whether a worker was hosted
unfoldable pub spawn_compute_here : Env → Broker → Broker × Bool
unfolding adopt_compute_port
spawn_compute_here env b = elim env.new_worker [
  | none ↦ (b, false)
  | some construct ↦
      if b.compute.hosting_failed then (b, false) else elim (construct b.compute.spawned) [
        | none ↦ (
          record b {
            compute = record b.compute {
              spawned = b.compute.spawned + 1;
              hosting_failed = true;
              hosted = none;
            };
          },
          false,
        )
        | some port ↦ (
          adopt_compute_port port (record b {
            compute = record b.compute { spawned = b.compute.spawned + 1; hosted = some port };
          }),
          true,
        )
      ]
]

-- candidates.find((port) => !active.asked.has(port))
unfoldable pub find_asker : List ℕ → List ℕ → Option ℕ
find_asker asked [] = none
find_asker asked (port ∷ ports) =
    if not (any (λ p. eqb p port) asked) then some port else find_asker asked ports

-- the candidates: the preferred port, then the latest connected first
unfoldable pub reverse : List ℕ → List ℕ
reverse [] = []
reverse (port ∷ ports) = reverse ports ++ (port ∷ [])

abbrev pub preferred_ports : Option ℕ → List ℕ
preferred_ports none = []
preferred_ports (some port) = port ∷ []

abbrev pub no_tab : String
no_tab =
    "WebSqliteDriver: no tab is available to host the database worker — every candidate went away without answering; reload the page"

-- asks one candidate, whose answer a timer waits for; without one, the backlog fails
unfoldable pub ask_candidate : List ℕ → Option ℕ → Broker → Broker
unfolding fail_backlog
ask_candidate asked none b = fail_backlog no_tab (stop_recruitment b)
ask_candidate asked (some port) b = record b {
  traffic = post (controlled port spawn_worker) b.traffic;
  recruitment = some (record { asked = asked ++ (port ∷ []); timer = true });
}

-- the ports that were asked since the recruitment began
abbrev pub asked_ports : Option Recruitment → List ℕ
asked_ports none = []
asked_ports (some active) = active.asked

-- `requestSpawn`
unfoldable pub request_spawn : Env → Option ℕ → Broker → Broker
unfolding ask_candidate spawn_compute_here find_asker reverse
request_spawn env preferred b =
    let asked = asked_ports b.recruitment in
    let active = record b { recruitment = some (record { asked = asked; timer = false }) } in
    let (after, hosted) = spawn_compute_here env active in
    let candidates = preferred_ports preferred ++ reverse b.connected in
    if is_some b.compute.port
    then stop_recruitment active
    else if hosted
    then after
    else ask_candidate asked (find_asker asked candidates) after

-- `restartRecruitment`
unfoldable pub restart_recruitment : Env → Option ℕ → Broker → Broker
unfolding request_spawn
restart_recruitment env preferred b = request_spawn env preferred (stop_recruitment b)

-- `forward`
unfoldable pub forward : Env → ℕ → Pending → Broker → Broker
unfolding send request_spawn
forward env port p b =
    let queued = record b {
      traffic = record b.traffic { backlog = b.traffic.backlog ++ (p ∷ []) };
    } in
    if is_some b.compute.port && b.compute.ready
    then send p b
    else if not (is_some b.compute.port) && not (is_some b.recruitment)
    then request_spawn env (some port) queued
    else queued
