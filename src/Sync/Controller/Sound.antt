-- ===== src/Sync/Controller/Sound.antt =====
-- One run at a time, and every promise that `syncNow` handed out is resolved or about to be.
use remelon_db.Prelude.{
  ℕ, ◌+◌, ◌≡◌, refl, ap, ◌∙◌, true, false, ◌||◌, Option, none, some, List, [], ◌∷◌, arith, All-mono,
  is_some, if_cases, option_cases,
}
use remelon_db.Sync.Controller.{
  Options, Controller, created, add_resolved, resolve, start_run, run, RunEnd, returned, threw,
  on_end, finally, auto_trigger, start, notify_local_write, debounced, hand_out, sync_now, dispose,
  settle, Event, starts, local_write_happens, syncs_now, disposes, triggers, debounce_fires,
  subscribes, unsubscribes, run_settles, step, steps,
}
use remelon_db.Sync.Controller.Runs.{
  is_at, is_kept, IsSound, same-IsSound, is_resolved-add, HandsOut, IsRun, run-IsRun,
}

auto_trigger-IsSound : (c : Controller) → IsSound c → IsSound (auto_trigger c)
unfolding auto_trigger
auto_trigger-IsSound c k =
    if_cases IsSound (c.disposed || c.auth_blocked) (λ no_trigger. k) (λ fires. (run-IsRun c k).0)

start-IsSound : (options : Options) (c : Controller) → IsSound c → IsSound (start options c)
unfolding start
start-IsSound options c k =
    if_cases IsSound c.disposed (λ gone. k)
      (λ lives.
        (run-IsRun
          (record c {
            subscribed = true;
            interval_timer = c.interval_timer || options.has_interval;
          })
          (same-IsSound c _ refl refl refl refl refl refl refl refl refl k)).0)

debounced-IsSound : (c : Controller) → IsSound c → IsSound (debounced c)
unfolding debounced
debounced-IsSound c k =
    if_cases IsSound c.debounce_timer
      (λ fires.
        auto_trigger-IsSound (record c { debounce_timer = false })
          (same-IsSound c _ refl refl refl refl refl refl refl refl refl k))
      (λ cleared. k)

hand_out-IsSound : (out : Controller × Option ℕ) → IsRun out → IsSound (hand_out out)
unfolding HandsOut is_kept
hand_out-IsSound (c, none) (k, kept) = k
hand_out-IsSound (c, some p) (k, kept) = record {
  current = k.current;
  signal = k.signal;
  single = k.single;
  queue = k.queue;
  promises = (kept, k.promises);
}

sync_now-IsSound : (c : Controller) → IsSound c → IsSound (sync_now c)
unfolding sync_now
sync_now-IsSound c k =
    if_cases IsSound c.disposed (λ gone. k)
      (λ lives. hand_out-IsSound (run (record c { auth_blocked = false })) (
        run-IsRun (record c { auth_blocked = false })
          (same-IsSound c _ refl refl refl refl refl refl refl refl refl k)))

dispose-IsSound : (c : Controller) → IsSound c → IsSound (dispose c)
unfolding dispose is_kept
dispose-IsSound c k = record {
  current = k.current;
  signal = k.signal;
  single = k.single;
  queue = refl;
  promises =
      All-mono (λ p. is_kept p c ≡ true) (λ p. is_kept p (dispose c) ≡ true)
        (λ p h. ground (
          arith,
          h,
          is_resolved-add c.queued_run p c.state (add_resolved c.current_run c.state c.resolved),
          is_resolved-add c.current_run p c.state c.resolved,
        ))
        c.handed_out k.promises;
}

on_end-IsSound :
    (options : Options) (how : RunEnd) (c : Controller) → IsSound c → IsSound (on_end options how c)
unfolding on_end
on_end-IsSound options (returned result now) c k =
    if_cases IsSound c.disposed (λ gone. k)
      (λ lives. same-IsSound c _ refl refl refl refl refl refl refl refl refl k)
on_end-IsSound options (threw e) c k =
    if_cases IsSound c.disposed (λ gone. k)
      (λ lives.
        if_cases IsSound (options.is_auth_error e)
          (λ auth. same-IsSound c _ refl refl refl refl refl refl refl refl refl k)
          (λ other.
            if_cases IsSound (options.is_offline_error e)
              (λ away. same-IsSound c _ refl refl refl refl refl refl refl refl refl k)
              (λ fault. same-IsSound c _ refl refl refl refl refl refl refl refl refl k)))

-- the run is over, and its promise resolved
abbrev over : Controller → Controller
over c =
    resolve c.current_run (record c {
      running = false;
      in_flight = false;
      current_run = none;
      finished = c.finished + 1;
    })

finally-IsSound : (c : Controller) → IsSound c → c.running ≡ true → IsSound (finally c)
unfolding finally is_kept
finally-IsSound c k runs =
    option_cases IsSound c.queued_run
      (λ empty. record {
        current = refl;
        signal = refl;
        single = ground (arith, k.single, runs);
        queue = refl;
        promises =
            All-mono (λ p. is_kept p c ≡ true)
              (λ p. is_kept p (record (over c) { queued_run = none }) ≡ true)
              (λ p h.
                ground (
                  arith,
                  h,
                  ap (is_at p) empty,
                  is_resolved-add c.current_run p c.state c.resolved,
                ))
              c.handed_out k.promises;
      })
      (λ q waits.
        if_cases IsSound c.disposed
          (λ gone. let never : ⊥ = ground (arith, k.queue, gone, ap is_some waits) in absurd never)
          (λ lives. record {
            current = refl;
            signal = refl;
            single = ground (arith, k.single, runs);
            queue = refl;
            promises =
                All-mono (λ p. is_kept p c ≡ true)
                  (λ p. is_kept p (start_run q (record (over c) { queued_run = none })) ≡ true)
                  (λ p h. ground (
                    arith,
                    h,
                    lives,
                    ap (is_at p) waits,
                    is_resolved-add c.current_run p c.state c.resolved,
                  ))
                  c.handed_out k.promises;
          }))

on_end-running :
    (options : Options) (how : RunEnd) (c : Controller) → (on_end options how c).running ≡ c.running
unfolding on_end
on_end-running options (returned result now) c =
    if_cases (λ (a : Controller). a.running ≡ c.running) c.disposed (λ gone. refl) (λ lives. refl)
on_end-running options (threw e) c =
    let P : Controller → Type 0 = λ a. a.running ≡ c.running in
    if_cases P c.disposed (λ gone. refl)
      (λ lives.
        if_cases P (options.is_auth_error e) (λ auth. refl)
          (λ other. if_cases P (options.is_offline_error e) (λ away. refl) (λ fault. refl)))

settle-IsSound :
    (options : Options) (how : RunEnd) (c : Controller) → IsSound c → IsSound (settle options how c)
unfolding settle
settle-IsSound options how c k =
    if_cases IsSound c.running
      (λ runs.
        finally-IsSound (on_end options how c) (on_end-IsSound options how c k)
          (on_end-running options how c ∙ runs))
      (λ idles. k)

step-IsSound :
    (options : Options) (e : Event) (c : Controller) → IsSound c → IsSound (step options e c)
unfolding step notify_local_write
step-IsSound options starts c k = start-IsSound options c k
step-IsSound options local_write_happens c k =
    if_cases IsSound (c.disposed || c.auth_blocked) (λ no_write. k)
      (λ waits. same-IsSound c _ refl refl refl refl refl refl refl refl refl k)
step-IsSound options syncs_now c k = sync_now-IsSound c k
step-IsSound options disposes c k = dispose-IsSound c k
step-IsSound options triggers c k = auto_trigger-IsSound c k
step-IsSound options debounce_fires c k = debounced-IsSound c k
step-IsSound options (subscribes l) c k =
    same-IsSound c _ refl refl refl refl refl refl refl refl refl k
step-IsSound options (unsubscribes l) c k =
    same-IsSound c _ refl refl refl refl refl refl refl refl refl k
step-IsSound options (run_settles how) c k = settle-IsSound options how c k

steps-IsSound :
    (options : Options) (events : List Event) (c : Controller)
    → IsSound c
    → IsSound (steps options events c)
unfolding steps
steps-IsSound options [] c k = k
steps-IsSound options (e ∷ events) c k =
    steps-IsSound options events (step options e c) (step-IsSound options e c k)

created-IsSound : IsSound created
created-IsSound = record {
  current = refl;
  signal = refl;
  single = refl;
  queue = refl;
  promises = tt;
}

-- After any sequence of events: at most one call of `runSync` has not settled, and there is one just
-- when the controller is running, which it is just when a promise stands for the current run and a
-- signal can abort it; a run waits only behind one in progress and never in a controller that is
-- disposed; and every promise that `syncNow` handed out is resolved, or, unless the controller is
-- disposed, is that of the current or of the waiting run.
pub controller-IsSound :
    (options : Options) (events : List Event) → IsSound (steps options events created)
controller-IsSound options events = steps-IsSound options events created created-IsSound
