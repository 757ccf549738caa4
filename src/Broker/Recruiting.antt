-- ===== src/Broker/Recruiting.antt =====
-- The end of a recruitment.
use remelon_db.Prelude.{
  ℕ, ◌+◌, ◌≤◌, ◌<◌, ◌≡◌, refl, sym, ap, ap₂, subst, ◌∙◌, String, Bool, true, false, not, ◌&&◌, ◌||◌,
  Option, none, some, is_some, List, [], ◌∷◌, ◌++◌, arith, eqb, eqb_iff, length, length-append,
  some-injective, zero, suc, if_cases, option_cases, if◌then◌else◌,
}
use remelon_db.Prelude.Ids.{get_at}
use remelon_db.Broker.{Answer, failed}
use remelon_db.Broker.State.{Asker, page, reopen, Pending, Recruitment, Broker, Env}
use remelon_db.Broker.Traffic.{
  send_all, flush_backlog, reopened, post_to, undo, fail_all, fail_backlog,
}
use remelon_db.Broker.Recruit.{
  spawn_compute_here, find_asker, reverse, no_tab, ask_candidate, asked_ports, request_spawn,
}
use remelon_db.Broker.Handle.{Event, spawn_times_out, spawn_deadline, step, run, has_port}

-- how many of the ports were not asked
unfoldable pub unasked : List ℕ → List ℕ → ℕ
unasked asked [] = 0
unasked asked (port ∷ ports) = (if has_port port asked then 0 else 1) + unasked asked ports

has_port-append :
    (port : ℕ) (xs ys : List ℕ) → has_port port (xs ++ ys) ≡ has_port port xs || has_port port ys
has_port-append port [] ys = refl
has_port-append port (x ∷ xs) ys = ground (arith, has_port-append port xs ys)

unasked-le :
    (asked ports : List ℕ) (port : ℕ) → unasked (asked ++ (port ∷ [])) ports ≤ unasked asked ports
unfolding unasked
unasked-le asked [] port = omega arith
unasked-le asked (x ∷ ports) port =
    ground (arith, unasked-le asked ports port, has_port-append x asked (port ∷ []))

-- the one that is found was not asked, and then counts no more
find_asker-lt :
    (asked ports : List ℕ) {port : ℕ}
    → find_asker asked ports ≡ some port
    → unasked (asked ++ (port ∷ [])) ports < unasked asked ports
unfolding find_asker unasked
find_asker-lt asked [] e = cc
find_asker-lt asked (x ∷ ports) {port} e =
    at (has_port x asked) refl (λ later. find_asker-lt asked ports later) e
  where
    at :
        (before : Bool)
        → has_port x asked ≡ before
        → (find_asker asked ports ≡ some port
            → unasked (asked ++ (port ∷ [])) ports < unasked asked ports)
        → (if not before then some x else find_asker asked ports) ≡ some port
        → (if has_port x (asked ++ (port ∷ [])) then 0 else 1)
            + unasked (asked ++ (port ∷ [])) ports
          < (if before then 0 else 1) + unasked asked ports
    at true known rest later =
        ground (arith, rest later, has_port-append x asked (port ∷ []), known)
    at false known rest here = ground (
      arith,
      unasked-le asked ports port,
      has_port-append x asked (port ∷ []),
      eqb_iff port x,
      some-injective here,
    )

unasked-le-length : (asked ports : List ℕ) → unasked asked ports ≤ length ports
unfolding unasked
unasked-le-length asked [] = omega arith
unasked-le-length asked (x ∷ ports) = ground (arith, unasked-le-length asked ports)

length-reverse : (ports : List ℕ) → length (reverse ports) ≡ length ports
unfolding reverse
length-reverse [] = refl
length-reverse (x ∷ ports) =
    omega (arith, length-append (reverse ports) (x ∷ []), length-reverse ports)

-- an empty backlog stays empty while items fail
reopened-empty : (p : ℕ) (b : Broker) → b.traffic.backlog ≡ [] → (reopened p b).traffic.backlog ≡ []
unfolding reopened flush_backlog send_all
reopened-empty p b none_waits =
    option_cases (λ (a : Broker). a.traffic.backlog ≡ []) (get_at p b.compute.reopens)
      (λ nothing. none_waits)
      (λ n found.
        if_cases (λ (a : Broker). a.traffic.backlog ≡ []) (eqb n 1) (λ last. rw none_waits refl)
          (λ more. none_waits))

reopened-recruitment :
    (p : ℕ) (b : Broker) → b.traffic.backlog ≡ [] → (reopened p b).recruitment ≡ b.recruitment
unfolding reopened flush_backlog send_all
reopened-recruitment p b none_waits =
    option_cases (λ (a : Broker). a.recruitment ≡ b.recruitment) (get_at p b.compute.reopens)
      (λ nothing. refl)
      (λ n found.
        if_cases (λ (a : Broker). a.recruitment ≡ b.recruitment) (eqb n 1)
          (λ last. rw none_waits refl) (λ more. refl))

-- a recruitment is over, and nobody waits
pub record IsOver (b : Broker) : Type 0 where
  pub stopped : b.recruitment ≡ none
  pub none_waits : b.traffic.backlog ≡ []

undo-IsOver : (o : Option (String × ℕ)) (b : Broker) → IsOver b → IsOver (undo o b)
unfolding undo
undo-IsOver none b over = over
undo-IsOver (some (name, p)) b over = record {
  stopped = over.stopped;
  none_waits = over.none_waits;
}

post_to-IsOver : (a : Asker) (answer : Answer) (b : Broker) → IsOver b → IsOver (post_to a answer b)
unfolding post_to
post_to-IsOver (page p i) answer b over = record {
  stopped = over.stopped;
  none_waits = over.none_waits;
}
post_to-IsOver (reopen p) answer b over = record {
  stopped = reopened-recruitment p b over.none_waits ∙ over.stopped;
  none_waits = reopened-empty p b over.none_waits;
}

fail_all-IsOver :
    (reason : String) (items : List Pending) (b : Broker)
    → IsOver b
    → IsOver (fail_all reason items b)
unfolding fail_all
fail_all-IsOver reason [] b over = over
fail_all-IsOver reason (p ∷ items) b over =
    fail_all-IsOver reason items (post_to p.asker (failed reason) (undo p.on_failure b)) (
      post_to-IsOver p.asker (failed reason) (undo p.on_failure b)
        (undo-IsOver p.on_failure b over))

-- where the broker can host no worker itself and has none, it asks the next candidate
request_spawn-asks :
    (env : Env) (b : Broker)
    → env.new_worker ≡ none
    → b.compute.port ≡ none
    → request_spawn env none b
      ≡ ask_candidate
          (asked_ports b.recruitment)
          (find_asker (asked_ports b.recruitment) (reverse b.connected))
          (record b {
            recruitment = some (record { asked = asked_ports b.recruitment; timer = false });
          })
unfolding request_spawn spawn_compute_here
request_spawn-asks env b no_class no_compute = rw no_class (rw no_compute refl)

abbrev pub silences : ℕ → List Event
silences zero = []
silences (suc n) = spawn_times_out ∷ silences n

spawn_deadline-none :
    (env : Env) (o : Option Recruitment) (b : Broker) → o ≡ none → spawn_deadline env o b ≡ b
unfolding spawn_deadline
spawn_deadline-none env none b e = refl
spawn_deadline-none env (some active) b e = cc

silent-IsOver : (env : Env) (n : ℕ) (b : Broker) → IsOver b → IsOver (run env (silences n) b)
unfolding run step
silent-IsOver env zero b over = over
silent-IsOver env (suc n) b over =
    subst (λ a. IsOver (run env (silences n) a))
      (sym (spawn_deadline-none env b.recruitment b over.stopped)) (silent-IsOver env n b over)

-- the state in which a candidate has been asked
pub record IsAsking (asked : List ℕ) (b : Broker) : Type 0 where
  pub no_compute : b.compute.port ≡ none
  pub active : b.recruitment ≡ some (record { asked = asked; timer = true })

spawn_deadline-asks :
    (env : Env) (asked : List ℕ) (o : Option Recruitment) (b : Broker)
    → b.compute.port ≡ none
    → o ≡ some (record { asked = asked; timer = true })
    → spawn_deadline env o b ≡ request_spawn env none b
unfolding spawn_deadline
spawn_deadline-asks env asked none b no_compute e = cc
spawn_deadline-asks env asked (some active) b no_compute e =
    ap (λ c. if c then request_spawn env none b else b)
      (ap₂ (λ t o. t && not (is_some o)) (ap (λ (r : Recruitment). r.timer) (some-injective e))
        no_compute)

-- the state before the next candidate is asked
abbrev pub between : List ℕ → Broker → Broker
between asked b = record b { recruitment = some (record { asked = asked; timer = false }) }

-- one silent candidate: the next is asked, or nobody is left
silent-step :
    (env : Env) (asked : List ℕ) (b : Broker)
    → env.new_worker ≡ none
    → IsAsking asked b
    → step env spawn_times_out b
      ≡ ask_candidate asked (find_asker asked (reverse b.connected)) (between asked b)
unfolding step
silent-step env asked b no_class k =
    spawn_deadline-asks env asked b.recruitment b k.no_compute k.active
    ∙ request_spawn-asks env b no_class k.no_compute
    ∙ ap (λ a. ask_candidate a (find_asker a (reverse b.connected)) (between a b))
        (ap asked_ports k.active)

ask_candidate-none : (asked : List ℕ) (b : Broker) → IsOver (ask_candidate asked none b)
unfolding ask_candidate fail_backlog
ask_candidate-none asked b =
    fail_all-IsOver no_tab b.traffic.backlog
      (record b { traffic = record b.traffic { backlog = [] }; recruitment = none })
      (record { stopped = refl; none_waits = refl })

ask_candidate-some :
    (asked : List ℕ) (p : ℕ) (b : Broker)
    → b.compute.port ≡ none
    → IsAsking (asked ++ (p ∷ [])) (ask_candidate asked (some p) b)
      × ((ask_candidate asked (some p) b).connected ≡ b.connected)
unfolding ask_candidate
ask_candidate-some asked p b no_compute = (record { no_compute = no_compute; active = refl }, refl)

silences-end :
    (env : Env) (n : ℕ) (asked : List ℕ) (b : Broker)
    → env.new_worker ≡ none
    → IsAsking asked b
    → unasked asked (reverse b.connected) < n
    → IsOver (run env (silences n) b)
unfolding run
silences-end env zero asked b no_class k lt = let never : ⊥ = omega (arith, lt) in absurd never
silences-end env (suc n) asked b no_class k lt =
    subst (λ a. IsOver (run env (silences n) a)) (sym (silent-step env asked b no_class k))
      (next (find_asker asked (reverse b.connected)) refl
        (λ p a active fewer. silences-end env n (asked ++ (p ∷ [])) a no_class active fewer))
  where
    next :
        (o : Option ℕ)
        → find_asker asked (reverse b.connected) ≡ o
        → ((p : ℕ) (a : Broker)
            → IsAsking (asked ++ (p ∷ [])) a
            → unasked (asked ++ (p ∷ [])) (reverse a.connected) < n
            → IsOver (run env (silences n) a))
        → IsOver (run env (silences n) (ask_candidate asked o (between asked b)))
    next none found rest =
        silent-IsOver env n (ask_candidate asked none (between asked b))
          (ask_candidate-none asked (between asked b))
    next (some p) found rest =
        let (active, same) = ask_candidate-some asked p (between asked b) k.no_compute in
        rest p (ask_candidate asked (some p) (between asked b)) active (
          subst (λ ports. unasked (asked ++ (p ∷ [])) (reverse ports) < n) (sym same)
            (omega (arith, lt, find_asker-lt asked (reverse b.connected) found)))

-- Where the broker cannot host a worker itself and a tab was asked to, a recruitment in which every
-- candidate is silent ends: after one deadline more than there are remembered ports, nobody is
-- being asked and the backlog is empty.
pub recruitment_ends :
    (env : Env) (asked : List ℕ) (b : Broker)
    → env.new_worker ≡ none
    → IsAsking asked b
    → IsOver (run env (silences (length b.connected + 1)) b)
recruitment_ends env asked b no_class k =
    silences-end env (length b.connected + 1) asked b no_class k
      (omega (arith, unasked-le-length asked (reverse b.connected), length-reverse b.connected))
