-- ===== src/Sync/Controller/Runs.antt =====
-- What holds of a controller, and that a run keeps it.
use remelon_db.Prelude.{
  ℕ, ◌+◌, ◌≡◌, refl, sym, ap, subst, ◌∙◌, Bool, true, false, not, ◌&&◌, ◌||◌, Option, none, some,
  List, arith, All, All-mono, eqb, eqb_iff, is_some, if_cases, if_not_cases, option_cases,
  if◌then◌else◌,
}
use remelon_db.Sync.Controller.{
  SyncControllerState, Controller, is_resolved, add_resolved, start_run, run,
}

abbrev pub is_at : ℕ → Option ℕ → Bool
is_at p none = false
is_at p (some q) = eqb q p

-- the promise is resolved, or the controller lives and a run in progress or in the queue settles it
unfoldable pub is_kept : ℕ → Controller → Bool
unfolding is_resolved
is_kept p c =
    is_resolved p c.resolved || (not c.disposed && (is_at p c.current_run || is_at p c.queued_run))

-- a run is in progress or not, with its promise and its signal; one may wait behind it
pub record IsSound (c : Controller) : Type 0 where
  pub current : c.running ≡ is_some c.current_run
  pub signal : c.in_flight ≡ c.running
  pub single : c.started ≡ c.finished + (if c.running then 1 else 0)
  pub queue : (is_some c.queued_run && not (c.running && not c.disposed)) ≡ false
  pub promises : All (λ p. is_kept p c ≡ true) c.handed_out

-- the parts that the invariant reads are the same
pub same-IsSound :
    (c a : Controller)
    → a.running ≡ c.running
    → a.current_run ≡ c.current_run
    → a.queued_run ≡ c.queued_run
    → a.in_flight ≡ c.in_flight
    → a.disposed ≡ c.disposed
    → a.started ≡ c.started
    → a.finished ≡ c.finished
    → a.resolved ≡ c.resolved
    → a.handed_out ≡ c.handed_out
    → IsSound c
    → IsSound a
unfolding is_kept
same-IsSound c a running current queued in_flight disposed started finished resolved handed_out k =
    record {
      current = rw running (rw current k.current);
      signal = rw in_flight (rw running k.signal);
      single = rw started (rw finished (rw running k.single));
      queue = rw queued (rw running (rw disposed k.queue));
      promises = rw handed_out (
          All-mono (λ p. is_kept p c ≡ true) (λ p. is_kept p a ≡ true)
            (λ p h. rw resolved (rw disposed (rw current (rw queued h)))) c.handed_out k.promises);
    }

is_some-false : {A : Type 0} (o : Option A) → is_some o ≡ false → o ≡ none
is_some-false none e = refl
is_some-false (some a) e = cc

-- what was resolved stays so, and what is resolved is
pub is_resolved-add :
    (o : Option ℕ) (p : ℕ) (state : SyncControllerState) (settled : List (ℕ × SyncControllerState))
    → is_resolved p (add_resolved o state settled) ≡ is_resolved p settled || is_at p o
unfolding add_resolved is_resolved
is_resolved-add none p state settled = ground arith
is_resolved-add (some q) p state settled =
    if_cases
      (λ (a : List (ℕ × SyncControllerState)). is_resolved p a ≡ is_resolved p settled || eqb q p)
      (is_resolved q settled)
      (λ before.
        again (eqb q p) (λ e. subst (λ x. is_resolved x settled ≡ true) ((eqb_iff q p).0 e) before))
      (λ first. ground arith)
  where
    again :
        (same : Bool)
        → (same ≡ true → is_resolved p settled ≡ true)
        → is_resolved p settled ≡ is_resolved p settled || same
    again true known = known refl ∙ ground (arith, known refl)
    again false known = ground arith

-- a promise that is handed out is kept
unfoldable pub HandsOut : Controller × Option ℕ → Type 0
HandsOut (c, none) = Unit
HandsOut (c, some p) = is_kept p c ≡ true

abbrev pub IsRun : Controller × Option ℕ → Type 0
IsRun out = IsSound out.0 × HandsOut out

-- a run starts where none runs and none waits
start_run-IsSound :
    (p : ℕ) (c : Controller)
    → IsSound c
    → c.running ≡ false
    → c.queued_run ≡ none
    → IsSound (start_run p c)
unfolding is_kept
start_run-IsSound p c k stopped empty =
    let no_current = is_some-false c.current_run (sym k.current ∙ stopped) in
    record {
      current = refl;
      signal = refl;
      single = ground (arith, k.single, stopped);
      queue = rw empty refl;
      promises =
          All-mono (λ q. is_kept q c ≡ true) (λ q. is_kept q (start_run p c) ≡ true)
            (λ q h. ground (
              arith,
              subst
                  (λ o.
                    (is_resolved q c.resolved
                      || (not c.disposed && (is_at q o || is_at q c.queued_run)))
                    ≡ true)
                  no_current h,
              ap (is_at q) empty,
            ))
            c.handed_out k.promises;
    }

no_queue : (c : Controller) → IsSound c → c.running ≡ false → c.queued_run ≡ none
no_queue c k stopped = is_some-false c.queued_run (ground (arith, k.queue, stopped))

-- a run waits behind the one in progress
queue_run-IsSound :
    (c : Controller)
    → IsSound c
    → c.running ≡ true
    → c.disposed ≡ false
    → c.queued_run ≡ none
    → IsSound (record c { next_promise = c.next_promise + 1; queued_run = some c.next_promise })
unfolding is_kept
queue_run-IsSound c k runs lives empty = record {
  current = k.current;
  signal = k.signal;
  single = k.single;
  queue = ground (arith, runs, lives);
  promises =
      All-mono (λ q. is_kept q c ≡ true)
        (λ q.
          is_kept q
            (record c { next_promise = c.next_promise + 1; queued_run = some c.next_promise })
          ≡ true)
        (λ q h. ground (arith, h, ap (is_at q) empty)) c.handed_out k.promises;
}

pub run-IsRun : (c : Controller) → IsSound c → IsRun (run c)
unfolding run is_kept HandsOut
run-IsRun c k =
    if_cases IsRun c.disposed (λ gone. (k, tt))
      (λ lives.
        if_not_cases IsRun c.running
          (λ stopped. (
            start_run-IsSound c.next_promise (record c { next_promise = c.next_promise + 1 })
                (same-IsSound c _ refl refl refl refl refl refl refl refl refl k) stopped
                (no_queue c k stopped),
            ground (arith, lives, eqb_iff c.next_promise c.next_promise),
          ))
          (λ runs.
            option_cases IsRun c.queued_run
              (λ empty. (
                queue_run-IsSound c k runs lives empty,
                ground (arith, lives, eqb_iff c.next_promise c.next_promise),
              ))
              (λ q waits. (k, rw waits (ground (arith, lives, eqb_iff q q))))))
