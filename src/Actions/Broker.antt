-- ===== src/Actions/Broker.antt =====
-- The command broker: crates/ppb-server/src/commands/broker.rs. A worker is the task behind a queue
-- key with its channel; a step of it is a receipt, the end of an execution, or a panic, which drops
-- the channel. What a dropped channel held is kept in `queue`.
pub mod Steps
pub mod Order
pub mod Death
mod Tests
use phira_plus_backend.Prelude.{
  ℕ, String, Bool, true, false, ◌&&◌, Option, none, some, List, [], ◌∷◌, ◌++◌, ◌==◌, string_eq,
  lookup, modify, select, length, ltb, if◌then◌else◌,
}
use phira_plus_backend.ErrorCode.{long_job_accepted}
use phira_plus_backend.ApiError.{Result, ok, err, api_error}
use phira_plus_backend.Actions.Execution.{CommandTask}

pub record Worker : Type 0 where
  pub queue : List CommandTask
  pub running : Option CommandTask
  pub is_alive : Bool

abbrev pub Workers : Type 0
Workers = List (String × Worker)

-- The capacity of a channel.
abbrev pub capacity : ℕ
capacity = 64

abbrev pub new_worker : Worker
new_worker = record { queue = []; running = none; is_alive = true }

abbrev pub or_new : Option Worker → Worker
or_new none = new_worker
or_new (some w) = w

abbrev pub worker_of : String → Workers → Worker
worker_of key workers = or_new (lookup key workers)

-- `entry(key).or_insert_with(…)`.
pub or_insert : String → Workers → Workers
or_insert key workers = elim (lookup key workers) [
  | none ↦ (key, new_worker) ∷ workers
  | some w ↦ workers
]

abbrev pub push : CommandTask → Worker → Worker
push task w = record w { queue = w.queue ++ (task ∷ []) }

-- `try_send`: refused by a full channel and by a closed one.
abbrev pub accepts : Worker → Bool
accepts w = w.is_alive && ltb (length w.queue) capacity

unfoldable pub submit : CommandTask → Workers → Result (Unit {0}) × Workers
unfolding or_insert modify
submit task workers =
    let entered = or_insert task.resource_key workers in
    if accepts (worker_of task.resource_key workers)
    then (ok tt, modify task.resource_key (push task) entered)
    else (err (api_error long_job_accepted "command queue full"), entered)

receive_queue : Worker → List CommandTask → Worker
receive_queue w [] = w
receive_queue w (task ∷ queue) = record w { queue = queue; running = some task }

-- `rx.recv()` of an idle worker.
pub receive_worker : Worker → Worker
unfolding receive_queue
receive_worker w = elim w.running [
  | some task ↦ w
  | none ↦ if w.is_alive then receive_queue w w.queue else w
]

-- The end of `executor.execute(task).await`.
abbrev pub finish_worker : Worker → Worker
finish_worker w = record w { running = none }

-- A panic of it ends the worker's loop.
abbrev pub panic_worker : Worker → Worker
panic_worker w = elim w.running [
  | none ↦ w
  | some task ↦ record w { running = none; is_alive = false }
]

pub receive : String → Workers → Workers
unfolding modify receive_worker
receive key workers = modify key receive_worker workers

pub finish : String → Workers → Workers
unfolding modify
finish key workers = modify key finish_worker workers

pub panic : String → Workers → Workers
unfolding modify
panic key workers = modify key panic_worker workers

abbrev pub to_list : Option CommandTask → List CommandTask
to_list none = []
to_list (some task) = task ∷ []

abbrev pub accepted : Result (Unit {0}) → CommandTask → List CommandTask
accepted (ok u) task = task ∷ []
accepted (err e) task = []

-- The tasks that were accepted and those whose execution ended, in order, and the workers then.
pub data Reach : List CommandTask → List CommandTask → Workers → Type 0 where
  start : Reach [] [] []
  submitted :
      {log done : List CommandTask} {workers : Workers}
      → Reach log done workers
      → (task : CommandTask)
      → Reach (log ++ accepted (submit task workers).0 task) done (submit task workers).1
  received :
      {log done : List CommandTask} {workers : Workers}
      → Reach log done workers
      → (key : String) → Reach log done (receive key workers)
  finished :
      {log done : List CommandTask} {workers : Workers}
      → Reach log done workers
      → (key : String)
      → Reach log (done ++ to_list (worker_of key workers).running) (finish key workers)
  panicked :
      {log done : List CommandTask} {workers : Workers}
      → Reach log done workers
      → (key : String)
      → Reach log (done ++ to_list (worker_of key workers).running) (panic key workers)
