-- ===== src/Actions/Broker/Death.antt =====
-- What a panic of an execution does to its queue key: crates/ppb-server/src/commands/broker.rs.
use phira_plus_backend.Prelude.{
  ◌≡◌, refl, sym, ap, ◌∙◌, subst, String, false, some, ◌==◌, string_eq, eq_iff, modify, arith,
  Bool-cases, Option-cases, inl, inr,
}
use phira_plus_backend.ErrorCode.{long_job_accepted}
use phira_plus_backend.ApiError.{Result, err, api_error}
use phira_plus_backend.Actions.Execution.{CommandTask}
use phira_plus_backend.Actions.Broker.{
  Worker, Workers, new_worker, worker_of, accepts, submit, receive_queue, receive_worker,
  finish_worker, panic_worker, receive, finish, panic,
}
use phira_plus_backend.Actions.Broker.Steps.{worker_of-modify, worker_of-push, worker_of-or_insert}
use phira_plus_backend.Actions.Broker.Order.{submit-accepted, submit-refused}

-- The workers after any further submissions and steps.
pub data Later (from : Workers) : Workers → Type 0 where
  here : Later from from
  submitted :
      {workers : Workers}
      → Later from workers
      → (task : CommandTask) → Later from (submit task workers).1
  received :
      {workers : Workers} → Later from workers → (key : String) → Later from (receive key workers)
  finished :
      {workers : Workers} → Later from workers → (key : String) → Later from (finish key workers)
  panicked :
      {workers : Workers} → Later from workers → (key : String) → Later from (panic key workers)

abbrev IsDead : String → Workers → Type 0
IsDead key workers = (worker_of key workers).is_alive ≡ false

receive_worker-dead : (w : Worker) → w.is_alive ≡ false → (receive_worker w).is_alive ≡ false
unfolding receive_worker receive_queue
receive_worker-dead w d = elim (Option-cases w.running) [
  | inl r ↦ ground (arith, r, d)
  | inr (t, r) ↦ ground (arith, r, d)
]

panic_worker-dead : (w : Worker) → w.is_alive ≡ false → (panic_worker w).is_alive ≡ false
panic_worker-dead w d = elim (Option-cases w.running) [
  | inl r ↦ ground (arith, r, d)
  | inr (t, r) ↦ ground (arith, r, d)
]

modify-IsDead :
    (other key : String) (f : Worker → Worker) (workers : Workers)
    → f new_worker ≡ new_worker
    → (f (worker_of key workers)).is_alive ≡ false
    → IsDead key workers
    → IsDead key (modify other f workers)
modify-IsDead other key f workers fresh f_dead d =
    ap (λ (w : Worker). w.is_alive) (worker_of-modify other key f workers fresh)
    ∙ elim (Bool-cases (other == key)) [
      | inl e ↦ ground (arith, e, f_dead)
      | inr e ↦ ground (arith, e, d)
    ]

submit-IsDead :
    (key : String) (task : CommandTask) (workers : Workers)
    → IsDead key workers
    → IsDead key (submit task workers).1
submit-IsDead key task workers d =
    elim (Bool-cases (accepts (worker_of task.resource_key workers))) [
      | inr a ↦
          ap (λ (r : Result (Unit {0}) × Workers). (worker_of key r.1).is_alive)
            (submit-refused task workers a)
          ∙ ap (λ (w : Worker). w.is_alive) (worker_of-or_insert task.resource_key key workers)
          ∙ d
      | inl a ↦
          ap (λ (r : Result (Unit {0}) × Workers). (worker_of key r.1).is_alive)
            (submit-accepted task workers a)
          ∙ ap (λ (w : Worker). w.is_alive) (worker_of-push task.resource_key key task workers)
          ∙ elim (Bool-cases (task.resource_key == key)) [
            | inl e ↦ ground (arith, e, d)
            | inr e ↦ ground (arith, e, d)
          ]
    ]

Later-IsDead :
    {from workers : Workers} (key : String)
    → Later from workers
    → IsDead key from
    → IsDead key workers
unfolding receive finish panic
Later-IsDead key here d = d
Later-IsDead key (submitted {workers} l task) d =
    submit-IsDead key task workers (Later-IsDead key l d)
Later-IsDead key (received {workers} l other) d =
    let dead = Later-IsDead key l d in
    modify-IsDead other key receive_worker workers refl
      (receive_worker-dead (worker_of key workers) dead) dead
Later-IsDead key (finished {workers} l other) d =
    let dead = Later-IsDead key l d in modify-IsDead other key finish_worker workers refl dead dead
Later-IsDead key (panicked {workers} l other) d =
    let dead = Later-IsDead key l d in
    modify-IsDead other key panic_worker workers refl
      (panic_worker-dead (worker_of key workers) dead) dead

panic-IsDead :
    (key : String) (task : CommandTask) (workers : Workers)
    → (worker_of key workers).running ≡ some task
    → IsDead key (panic key workers)
unfolding panic
panic-IsDead key task workers r =
    ap (λ (w : Worker). w.is_alive) (worker_of-modify key key panic_worker workers refl)
    ∙ ground (arith, eq_iff key key, r)

-- After an execution panics, its queue key is dead for ever: whatever happens then, every task for
-- that key is refused as if the queue were full.
pub panicked_key_refuses :
    (key : String) (running task : CommandTask) (workers later : Workers)
    → (worker_of key workers).running ≡ some running
    → Later (panic key workers) later
    → task.resource_key ≡ key
    → (submit task later).0 ≡ err (api_error long_job_accepted "command queue full")
panicked_key_refuses key running task workers later r l k =
    let dead : IsDead task.resource_key later =
      subst (λ j. IsDead j later) (sym k)
        (Later-IsDead key l (panic-IsDead key running workers r)) in
    ap (λ (s : Result (Unit {0}) × Workers). s.0) (submit-refused task later (ground (arith, dead)))
