-- ===== src/Database/Queue/Serial.antt =====
-- The work runs in the order in which it came, one item at a time, and never stalls.
use remelon_db.Prelude.{
  map_snoc, append_assoc, append_nil, ℕ, ◌≡◌, refl, sym, ap, subst, length-append, ◌∙◌, Bool, true,
  false, not, ◌&&◌, ◌||◌, List, [], ◌∷◌, ◌++◌, arith, length, eqb, is_empty, map, if_cases,
}
use remelon_db.Database.Queue.{
  WorkQueueItem, WorkQueue, new_queue, start_head, enqueue, finish_head, QueueEvent, enqueues,
  work_settles, microtask_runs, queue_step, queue_steps,
}

-- the work in progress: that of the first item
abbrev pub in_progress : Bool → List WorkQueueItem → List ℕ
in_progress true (item ∷ rest) = item.work ∷ []
in_progress executing queue = []

-- the work that was enqueued, in order
abbrev pub enqueued : List QueueEvent → List ℕ
enqueued [] = []
enqueued (enqueues item ∷ events) = item.work ∷ enqueued events
enqueued (work_settles ∷ events) = enqueued events
enqueued (microtask_runs ∷ events) = enqueued events

-- where the work that came is, and what is in progress
pub record IsServing (came : List ℕ) (q : WorkQueue) : Type 0 where
  pub order : q.settled ++ map (λ i. i.work) q.queue ≡ came
  pub one_by_one : q.started ≡ q.settled ++ in_progress q.executing q.queue
  pub no_stall : (q.executing || q.scheduled) ≡ not (is_empty q.queue)
  pub no_race : (q.executing && q.scheduled) ≡ false

in_progress-nil : (executing : Bool) → in_progress executing [] ≡ []
in_progress-nil true = refl
in_progress-nil false = refl

in_progress-idle : (queue : List WorkQueueItem) → in_progress false queue ≡ []
in_progress-idle [] = refl
in_progress-idle (item ∷ rest) = refl

in_progress-cons :
    (executing : Bool) (item : WorkQueueItem) (rest more : List WorkQueueItem)
    → in_progress executing (item ∷ rest) ≡ in_progress executing (item ∷ more)
in_progress-cons true item rest more = refl
in_progress-cons false item rest more = refl

enqueue-IsServing :
    (item : WorkQueueItem) (came : List ℕ) (q : WorkQueue)
    → IsServing came q
    → IsServing (came ++ (item.work ∷ [])) (enqueue item q)
unfolding enqueue start_head
enqueue-IsServing item came q k = at q.queue q.executing q.scheduled q.started q.settled k
  where
    at :
        (queue : List WorkQueueItem) (executing scheduled : Bool) (started settled : List ℕ)
        → IsServing came (record {
          queue = queue;
          executing = executing;
          scheduled = scheduled;
          started = started;
          settled = settled;
        })
        → IsServing (came ++ (item.work ∷ [])) (
            enqueue item (record {
              queue = queue;
              executing = executing;
              scheduled = scheduled;
              started = started;
              settled = settled;
            }))
    at [] executing scheduled started settled s = record {
      order = ap (λ l. l ++ (item.work ∷ [])) (sym (append_nil settled) ∙ s.order);
      one_by_one =
          ap (λ l. l ++ (item.work ∷ []))
            (s.one_by_one
              ∙ ap (λ l. settled ++ l) (in_progress-nil executing)
              ∙ append_nil settled);
      no_stall = refl;
      no_race = ground (arith, s.no_stall);
    }
    at (i ∷ queue) executing scheduled started settled s =
        if_cases (IsServing (came ++ (item.work ∷ [])))
          (eqb (length (i ∷ (queue ++ (item ∷ [])))) 1)
          (λ alone.
            let never : ⊥ = ground (arith, alone, length-append queue (item ∷ [])) in absurd never)
          (λ more. record {
            order =
                ap (λ l. settled ++ l) (map_snoc (λ (j : WorkQueueItem). j.work) (i ∷ queue) item)
                ∙ sym (append_assoc settled (map (λ j. j.work) (i ∷ queue)) (item.work ∷ []))
                ∙ ap (λ l. l ++ (item.work ∷ [])) s.order;
            one_by_one =
                s.one_by_one
                ∙ ap (λ l. settled ++ l)
                    (in_progress-cons executing i queue (queue ++ (item ∷ [])));
            no_stall = s.no_stall;
            no_race = s.no_race;
          })

-- the item in progress is done
finish_head-IsServing :
    (came : List ℕ) (queue : List WorkQueueItem) (scheduled : Bool) (started settled : List ℕ)
    → IsServing came (record {
      queue = queue;
      executing = true;
      scheduled = scheduled;
      started = started;
      settled = settled;
    })
    → IsServing came (
        finish_head queue (record {
          queue = queue;
          executing = true;
          scheduled = scheduled;
          started = started;
          settled = settled;
        }))
unfolding finish_head
finish_head-IsServing came [] scheduled started settled s = s
finish_head-IsServing came (i ∷ rest) scheduled started settled s = record {
  order = append_assoc settled (i.work ∷ []) (map (λ j. j.work) rest) ∙ s.order;
  one_by_one =
      s.one_by_one
      ∙ sym (append_nil (settled ++ (i.work ∷ [])))
      ∙ ap (λ l. (settled ++ (i.work ∷ [])) ++ l) (sym (in_progress-idle rest));
  no_stall = refl;
  no_race = refl;
}

-- the microtask starts the first item
start_head-IsServing :
    (came : List ℕ) (queue : List WorkQueueItem) (executing : Bool) (started settled : List ℕ)
    → IsServing came (record {
      queue = queue;
      executing = executing;
      scheduled = true;
      started = started;
      settled = settled;
    })
    → IsServing came (
        start_head queue (record {
          queue = queue;
          executing = executing;
          scheduled = false;
          started = started;
          settled = settled;
        }))
unfolding start_head
start_head-IsServing came [] executing started settled s =
    let never : ⊥ = ground (arith, s.no_stall) in absurd never
start_head-IsServing came (i ∷ rest) true started settled s = cc s.no_race
start_head-IsServing came (i ∷ rest) false started settled s = record {
  order = s.order;
  one_by_one = ap (λ l. l ++ (i.work ∷ [])) (s.one_by_one ∙ append_nil settled);
  no_stall = refl;
  no_race = refl;
}

queue_step-IsServing :
    (e : QueueEvent) (came : List ℕ) (q : WorkQueue)
    → IsServing came q
    → IsServing (came ++ enqueued (e ∷ [])) (queue_step e q)
unfolding queue_step
queue_step-IsServing (enqueues item) came q k = enqueue-IsServing item came q k
queue_step-IsServing work_settles came q k = rw (append_nil came) (
    if_cases (IsServing came) q.executing
      (λ runs. settles q.queue q.executing q.scheduled q.started q.settled runs k) (λ idles. k))
  where
    settles :
        (queue : List WorkQueueItem) (executing scheduled : Bool) (started settled : List ℕ)
        → executing ≡ true
        → IsServing came (record {
          queue = queue;
          executing = executing;
          scheduled = scheduled;
          started = started;
          settled = settled;
        })
        → IsServing came (
            finish_head queue (record {
              queue = queue;
              executing = executing;
              scheduled = scheduled;
              started = started;
              settled = settled;
            }))
    settles queue true scheduled started settled runs s =
        finish_head-IsServing came queue scheduled started settled s
    settles queue false scheduled started settled runs s = cc
queue_step-IsServing microtask_runs came q k = rw (append_nil came) (
    if_cases (IsServing came) q.scheduled
      (λ due. fires q.queue q.executing q.scheduled q.started q.settled due k) (λ idles. k))
  where
    fires :
        (queue : List WorkQueueItem) (executing scheduled : Bool) (started settled : List ℕ)
        → scheduled ≡ true
        → IsServing came (record {
          queue = queue;
          executing = executing;
          scheduled = scheduled;
          started = started;
          settled = settled;
        })
        → IsServing came (
            start_head queue (record {
              queue = queue;
              executing = executing;
              scheduled = false;
              started = started;
              settled = settled;
            }))
    fires queue executing true started settled due s =
        start_head-IsServing came queue executing started settled s
    fires queue executing false started settled due s = cc

enqueued-cons :
    (e : QueueEvent) (events : List QueueEvent)
    → enqueued (e ∷ events) ≡ enqueued (e ∷ []) ++ enqueued events
enqueued-cons (enqueues item) events = refl
enqueued-cons work_settles events = refl
enqueued-cons microtask_runs events = refl

queue_steps-IsServing :
    (events : List QueueEvent) (came : List ℕ) (q : WorkQueue)
    → IsServing came q
    → IsServing (came ++ enqueued events) (queue_steps events q)
unfolding queue_steps
queue_steps-IsServing [] came q k = rw (append_nil came) k
queue_steps-IsServing (e ∷ events) came q k =
    subst (λ all_came. IsServing all_came (queue_steps events (queue_step e q)))
      (append_assoc came (enqueued (e ∷ [])) (enqueued events)
        ∙ ap (λ l. came ++ l) (sym (enqueued-cons e events)))
      (queue_steps-IsServing events (came ++ enqueued (e ∷ [])) (queue_step e q)
        (queue_step-IsServing e came q k))

-- After any sequence of events: the work whose promise is settled, followed by that in the queue, is
-- what was enqueued, in that order; started is what is settled, and the first in the queue while
-- it executes; and there is something in the queue just when an item executes or a microtask is
-- about to start one, of which only one holds.
pub work_queue-IsServing :
    (events : List QueueEvent) → IsServing (enqueued events) (queue_steps events new_queue)
work_queue-IsServing events =
    queue_steps-IsServing events [] new_queue
      (record { order = refl; one_by_one = refl; no_stall = refl; no_race = refl })
