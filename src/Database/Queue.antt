-- ===== src/Database/Queue.antt =====
-- WorkQueue.ts: the work of the database, one item at a time.
pub mod Serial
use remelon_db.Prelude.{
  ℕ, Bool, true, false, not, ◌&&◌, List, [], ◌∷◌, ◌++◌, length, eqb, is_empty, if◌then◌else◌,
}

-- an item, by a number for its work and its promise
pub record WorkQueueItem : Type 0 where
  pub work : ℕ
  pub is_writer : Bool

-- `queue` and `executing`, whether a microtask is to call `executeNext`, the work that was started,
-- and the promises that were settled
pub record WorkQueue : Type 0 where
  pub queue : List WorkQueueItem
  pub executing : Bool
  pub scheduled : Bool
  pub started : List ℕ
  pub settled : List ℕ

abbrev pub new_queue : WorkQueue
new_queue = record { queue = []; executing = false; scheduled = false; started = []; settled = [] }

-- `isWriterRunning`
unfoldable pub is_writer_running : WorkQueue → Bool
is_writer_running q = q.executing && elim q.queue [ [] ↦ false | item ∷ rest ↦ item.is_writer ]

-- `executeNext`, up to the await
unfoldable pub start_head : List WorkQueueItem → WorkQueue → WorkQueue
start_head [] q = q
start_head (item ∷ rest) q = record q { executing = true; started = q.started ++ (item.work ∷ []) }

unfoldable pub enqueue : WorkQueueItem → WorkQueue → WorkQueue
unfolding start_head
enqueue item q =
    let longer = q.queue ++ (item ∷ []) in
    let queued = record q { queue = longer } in
    if eqb (length longer) 1 then start_head longer queued else queued

-- `executeNext` after the await: the promise of the item is resolved or rejected
unfoldable pub finish_head : List WorkQueueItem → WorkQueue → WorkQueue
finish_head [] q = q
finish_head (item ∷ rest) q = record q {
  queue = rest;
  executing = false;
  scheduled = not (is_empty rest);
  settled = q.settled ++ (item.work ∷ []);
}

-- Work is enqueued, the work in progress settles, or the microtask runs.
pub data QueueEvent : Type 0 where
  enqueues : WorkQueueItem → QueueEvent
  work_settles microtask_runs : QueueEvent

unfoldable pub queue_step : QueueEvent → WorkQueue → WorkQueue
unfolding enqueue finish_head start_head
queue_step (enqueues item) q = enqueue item q
queue_step work_settles q = if q.executing then finish_head q.queue q else q
queue_step microtask_runs q =
    if q.scheduled then start_head q.queue (record q { scheduled = false }) else q

unfoldable pub queue_steps : List QueueEvent → WorkQueue → WorkQueue
unfolding queue_step
queue_steps [] q = q
queue_steps (e ∷ events) q = queue_steps events (queue_step e q)
