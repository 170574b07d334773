-- ===== src/Actions/Broker/Order.antt =====
-- The order in which a queue key's commands are executed: crates/ppb-server/src/commands/broker.rs.
use phira_plus_backend.Prelude.{
  ◌≤◌, ◌≡◌, refl, sym, ap, ◌∙◌, subst, String, true, false, List, [], ◌∷◌, ◌++◌, ◌==◌, string_eq,
  eq_iff, modify, length, every-append, arith, Bool-cases, inl, inr,
}
use mathlib.Core.List.{append-nil}
use phira_plus_backend.ErrorCode.{status, long_job_accepted}
use phira_plus_backend.ApiError.{ApiError, Result, ok, err, api_error}
use phira_plus_backend.Actions.Execution.{CommandTask}
use phira_plus_backend.Actions.Broker.{
  Worker, Workers, new_worker, worker_of, or_insert, push, accepts, submit, receive_queue,
  receive_worker, finish_worker, panic_worker, receive, finish, panic, to_list, accepted, Reach,
  start, submitted, received, finished, panicked,
}
use phira_plus_backend.Actions.Broker.Steps.{
  is_for, pending, IsInOrder, worker_of-or_insert, worker_of-modify, worker_of-push,
  receive_worker-pending, ended-pending, pushed-IsInOrder, unrelated-IsInOrder, same-IsInOrder,
  ended-IsInOrder, others-IsInOrder,
}

pub submit-accepted :
    (task : CommandTask) (workers : Workers)
    → accepts (worker_of task.resource_key workers) ≡ true
    → submit task workers
      ≡ (ok tt, modify task.resource_key (push task) (or_insert task.resource_key workers))
unfolding submit
submit-accepted task workers a = rw (submit, a) refl

pub submit-refused :
    (task : CommandTask) (workers : Workers)
    → accepts (worker_of task.resource_key workers) ≡ false
    → submit task workers ≡ (
      err (api_error long_job_accepted "command queue full"),
      or_insert task.resource_key workers,
    )
unfolding submit
submit-refused task workers a = rw (submit, a) refl

submitted-IsInOrder :
    (key : String) (log done : List CommandTask) (workers : Workers) (task : CommandTask)
    → IsInOrder key log done (worker_of key workers)
    → IsInOrder key
        (log ++ accepted (submit task workers).0 task)
        done
        (worker_of key (submit task workers).1)
submitted-IsInOrder key log done workers task i =
    elim (Bool-cases (accepts (worker_of task.resource_key workers))) [
      | inr a ↦
          subst (λ r. IsInOrder key (log ++ accepted r.0 task) done (worker_of key r.1))
            (sym (submit-refused task workers a))
            (subst (λ l. IsInOrder key l done (worker_of key (or_insert task.resource_key workers)))
              (sym (append-nil log))
              (subst (IsInOrder key log done)
                (sym (worker_of-or_insert task.resource_key key workers)) i))
      | inl a ↦
          subst (λ r. IsInOrder key (log ++ accepted r.0 task) done (worker_of key r.1))
            (sym (submit-accepted task workers a))
            (subst (IsInOrder key (log ++ (task ∷ [])) done)
              (sym (worker_of-push task.resource_key key task workers))
              (elim (Bool-cases (task.resource_key == key)) [
                | inr k ↦ rw k (unrelated-IsInOrder key log done (worker_of key workers) task k i)
                | inl k ↦
                    let same = (eq_iff task.resource_key key).0 k in
                    rw k (
                      pushed-IsInOrder key log done (worker_of key workers) task k
                        (subst (λ j. accepts (worker_of j workers) ≡ true) same a) i)
              ]))
    ]

received-IsInOrder :
    (other key : String) (log done : List CommandTask) (workers : Workers)
    → IsInOrder key log done (worker_of key workers)
    → IsInOrder key log done (worker_of key (receive other workers))
unfolding receive receive_worker receive_queue
received-IsInOrder other key log done workers i =
    subst (IsInOrder key log done) (sym (worker_of-modify other key receive_worker workers refl))
      (elim (Bool-cases (other == key)) [
        | inr n ↦ rw n i
        | inl k ↦
            let (p, l) = receive_worker-pending (worker_of key workers) in
            rw k (same-IsInOrder i (receive_worker (worker_of key workers)) p l)
      ])

ended-Reach :
    (other key : String) (log done : List CommandTask) (workers : Workers) (f : Worker → Worker)
    → f new_worker ≡ new_worker
    → (to_list (worker_of key workers).running ++ pending (f (worker_of key workers))
        ≡ pending (worker_of key workers))
    → length (f (worker_of key workers)).queue ≤ length (worker_of key workers).queue
    → IsInOrder other log done (worker_of other workers)
    → IsInOrder key log done (worker_of key workers)
    → IsInOrder key
        (log)
        (done ++ to_list (worker_of other workers).running)
        (worker_of key (modify other f workers))
ended-Reach other key log done workers f fresh p l o i =
    subst (IsInOrder key log (done ++ to_list (worker_of other workers).running))
      (sym (worker_of-modify other key f workers fresh))
      (elim (Bool-cases (other == key)) [
        | inr n ↦ rw n (
            others-IsInOrder i other (to_list (worker_of other workers).running) n (
              ground (
                arith,
                o.own,
                every-append (is_for other) (to_list (worker_of other workers).running)
                    (worker_of other workers).queue,
              )))
        | inl k ↦ rw k (
            subst
              (λ j.
                IsInOrder key log (done ++ to_list (worker_of j workers).running)
                  (f (worker_of key workers)))
              (sym ((eq_iff other key).0 k)) (ended-IsInOrder i (f (worker_of key workers)) p l))
      ])

-- Whatever the interleaving of submissions and worker steps, panics included, for every queue key
-- the accepted tasks are, in order, those whose execution ended, then the one that runs, then those
-- that wait, of which there are at most 64: a key's tasks run one by one in the order of acceptance.
pub Reach-IsInOrder :
    {log done : List CommandTask} {workers : Workers}
    → Reach log done workers
    → (key : String) → IsInOrder key log done (worker_of key workers)
unfolding finish panic
Reach-IsInOrder start key = record { order = refl; bounded = omega arith; own = refl }
Reach-IsInOrder (submitted {log} {done} {workers} h task) key =
    submitted-IsInOrder key log done workers task (Reach-IsInOrder h key)
Reach-IsInOrder (received {log} {done} {workers} h other) key =
    received-IsInOrder other key log done workers (Reach-IsInOrder h key)
Reach-IsInOrder (finished {log} {done} {workers} h other) key =
    let (p, _, _) = ended-pending (worker_of key workers) in
    ended-Reach other key log done workers finish_worker refl p (omega arith)
      (Reach-IsInOrder h other) (Reach-IsInOrder h key)
Reach-IsInOrder (panicked {log} {done} {workers} h other) key =
    let (p, q, l) = ended-pending (worker_of key workers) in
    ended-Reach other key log done workers panic_worker refl q l (Reach-IsInOrder h other)
      (Reach-IsInOrder h key)

-- A task that a full or dead queue refuses is answered with a code whose HTTP status is 202, a
-- success, though nothing of any queue changes.
pub submit-refuses :
    (task : CommandTask) (workers : Workers) (e : ApiError) (key : String)
    → (submit task workers).0 ≡ err e
    → (accepts (worker_of task.resource_key workers) ≡ false)
      × (status e.code ≡ 202)
      × (worker_of key (submit task workers).1 ≡ worker_of key workers)
unfolding api_error status
submit-refuses task workers e key h =
    elim (Bool-cases (accepts (worker_of task.resource_key workers))) [
      | inl a ↦ absurd (
          ground (
            arith,
            ap (λ (r : Result (Unit {0}) × Workers). r.0) (submit-accepted task workers a),
            h,
          ))
      | inr a ↦
          let refused = submit-refused task workers a in
          let code : err (api_error long_job_accepted "command queue full") ≡ err e =
            sym (ap (λ (r : Result (Unit {0}) × Workers). r.0) refused) ∙ h in
          let same : api_error long_job_accepted "command queue full" ≡ e = ground (arith, code) in
          (
            a,
            subst (λ (y : ApiError). status y.code ≡ 202) same refl,
            ap (λ (r : Result (Unit {0}) × Workers). worker_of key r.1) refused
                ∙ worker_of-or_insert task.resource_key key workers,
          )
    ]
