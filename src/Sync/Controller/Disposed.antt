-- ===== src/Sync/Controller/Disposed.antt =====
-- A controller that is disposed.
use remelon_db.Prelude.{
  ◌≡◌, refl, sym, subst, ◌∙◌, Bool, true, false, ◌||◌, List, [], ◌∷◌, arith, if_cases, option_cases,
}
use remelon_db.Sync.Controller.{
  Options, Controller, RunEnd, returned, threw, on_end, finally, auto_trigger, start,
  notify_local_write, debounced, sync_now, dispose, settle, Event, starts, local_write_happens,
  syncs_now, disposes, triggers, debounce_fires, subscribes, unsubscribes, run_settles, step, steps,
}

-- no run was started, and the state and the block after an authentication error are as they were
pub record IsStill (c a : Controller) : Type 0 where
  pub gone : a.disposed ≡ true
  pub runs : a.started ≡ c.started
  pub shown : a.state ≡ c.state
  pub blocked : a.auth_blocked ≡ c.auth_blocked

unchanged : (c : Controller) → c.disposed ≡ true → IsStill c c
unchanged c gone = record { gone = gone; runs = refl; shown = refl; blocked = refl }

never : {P : Type 0} (b : Bool) → b ≡ true → b ≡ false → P
never b e f = cc

auto_trigger-IsStill : (c : Controller) → c.disposed ≡ true → IsStill c (auto_trigger c)
unfolding auto_trigger
auto_trigger-IsStill c gone =
    if_cases (IsStill c) (c.disposed || c.auth_blocked) (λ no_trigger. unchanged c gone)
      (λ lives. never (c.disposed || c.auth_blocked) (ground (arith, gone)) lives)

debounced-IsStill : (c : Controller) → c.disposed ≡ true → IsStill c (debounced c)
unfolding debounced
debounced-IsStill c gone =
    if_cases (IsStill c) c.debounce_timer
      (λ fires.
        let k = auto_trigger-IsStill (record c { debounce_timer = false }) gone in
        record { gone = k.gone; runs = k.runs; shown = k.shown; blocked = k.blocked })
      (λ cleared. unchanged c gone)

on_end-same :
    (options : Options) (how : RunEnd) (c : Controller)
    → c.disposed ≡ true
    → on_end options how c ≡ c
unfolding on_end
on_end-same options (returned result now) c gone =
    if_cases (λ (a : Controller). a ≡ c) c.disposed (λ yes_gone. refl)
      (λ lives. never c.disposed gone lives)
on_end-same options (threw e) c gone =
    if_cases (λ (a : Controller). a ≡ c) c.disposed (λ yes_gone. refl)
      (λ lives. never c.disposed gone lives)

finally-IsStill : (c : Controller) → c.disposed ≡ true → IsStill c (finally c)
unfolding finally
finally-IsStill c gone =
    option_cases (IsStill c) c.queued_run
      (λ empty. record { gone = gone; runs = refl; shown = refl; blocked = refl })
      (λ p waits.
        if_cases (IsStill c) c.disposed
          (λ yes_gone. record { gone = gone; runs = refl; shown = refl; blocked = refl })
          (λ lives. never c.disposed gone lives))

step-IsStill :
    (options : Options) (e : Event) (c : Controller)
    → c.disposed ≡ true
    → IsStill c (step options e c)
unfolding step start notify_local_write sync_now dispose settle
step-IsStill options starts c gone =
    if_cases (IsStill c) c.disposed (λ yes_gone. unchanged c gone)
      (λ lives. never c.disposed gone lives)
step-IsStill options local_write_happens c gone =
    if_cases (IsStill c) (c.disposed || c.auth_blocked) (λ no_write. unchanged c gone)
      (λ waits. record { gone = gone; runs = refl; shown = refl; blocked = refl })
step-IsStill options syncs_now c gone =
    if_cases (IsStill c) c.disposed (λ yes_gone. unchanged c gone)
      (λ lives. never c.disposed gone lives)
step-IsStill options disposes c gone = record {
  gone = refl;
  runs = refl;
  shown = refl;
  blocked = refl;
}
step-IsStill options triggers c gone = auto_trigger-IsStill c gone
step-IsStill options debounce_fires c gone = debounced-IsStill c gone
step-IsStill options (subscribes l) c gone = record {
  gone = gone;
  runs = refl;
  shown = refl;
  blocked = refl;
}
step-IsStill options (unsubscribes l) c gone = record {
  gone = gone;
  runs = refl;
  shown = refl;
  blocked = refl;
}
step-IsStill options (run_settles how) c gone =
    if_cases (IsStill c) c.running
      (λ runs.
        subst (λ a. IsStill c (finally a)) (sym (on_end-same options how c gone))
          (finally-IsStill c gone))
      (λ idles. unchanged c gone)

-- Once a controller is disposed, no event starts a run, changes the state that it shows or lifts the
-- block after an authentication error, and it stays disposed.
pub disposed-IsStill :
    (options : Options) (events : List Event) (c : Controller)
    → c.disposed ≡ true
    → IsStill c (steps options events c)
unfolding steps
disposed-IsStill options [] c gone = unchanged c gone
disposed-IsStill options (e ∷ events) c gone =
    let k = step-IsStill options e c gone in
    let l = disposed-IsStill options events (step options e c) k.gone in
    record {
      gone = l.gone;
      runs = l.runs ∙ k.runs;
      shown = l.shown ∙ k.shown;
      blocked = l.blocked ∙ k.blocked;
    }
