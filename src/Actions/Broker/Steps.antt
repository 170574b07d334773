-- ===== src/Actions/Broker/Steps.antt =====
-- What one step of a worker does to the order of its queue key: crates/ppb-server/src/commands/broker.rs.
use phira_plus_backend.Prelude.{
  ◌≤◌, ◌≡◌, refl, sym, ap, ◌∙◌, String, Bool, true, false, ◌&&◌, none, List, [], ◌∷◌, ◌++◌, ◌==◌,
  string_eq, eq_iff, lookup, modify, lookup-modify, select, select-append, length, length-append,
  every, every-append, arith, Bool-cases, Option-cases, inl, inr, if◌then◌else◌,
}
use mathlib.Core.List.{append_assoc, append-nil}
use phira_plus_backend.Actions.Execution.{CommandTask}
use phira_plus_backend.Actions.Broker.{
  Worker, Workers, new_worker, worker_of, or_insert, push, accepts, receive_queue, receive_worker,
  finish_worker, panic_worker, to_list,
}

abbrev pub is_for : String → CommandTask → Bool
is_for key task = task.resource_key == key

-- The tasks of a key that are executed or wait, oldest first.
abbrev pub pending : Worker → List CommandTask
pending w = to_list w.running ++ w.queue

pub worker_of-or_insert :
    (key j : String) (workers : Workers) → worker_of j (or_insert key workers) ≡ worker_of j workers
unfolding or_insert
worker_of-or_insert key j workers = elim (Option-cases (lookup key workers)) [
  | inr (w, e) ↦ rw (or_insert, e) refl
  | inl e ↦ ground (arith, e, eq_iff key j)
]

pub worker_of-modify :
    (key j : String) (f : Worker → Worker) (workers : Workers)
    → f new_worker ≡ new_worker
    → worker_of j (modify key f workers)
      ≡ (if key == j then f (worker_of j workers) else worker_of j workers)
worker_of-modify key j f workers fresh =
    rw (lookup-modify key j f workers) (elim (Option-cases (lookup j workers)) [
      | inl e ↦ ground (arith, e, fresh)
      | inr (w, e) ↦ ground (arith, e)
    ])

pub worker_of-push :
    (key j : String) (task : CommandTask) (workers : Workers)
    → worker_of j (modify key (push task) (or_insert key workers))
      ≡ (if key == j then push task (worker_of j workers) else worker_of j workers)
unfolding or_insert
worker_of-push key j task workers =
    rw (lookup-modify key j (push task) (or_insert key workers))
      (elim (Option-cases (lookup key workers)) [
        | inr (w, e) ↦ ground (arith, e, eq_iff key j)
        | inl e ↦ ground (arith, e, eq_iff key j, eq_iff key key)
      ])

-- The order of a key: what was accepted is what was executed and then what is pending; at most 64
-- tasks wait, and all that is pending is of this key.
pub record IsInOrder (key : String) (log done : List CommandTask) (w : Worker) : Type 0 where
  pub order : select (is_for key) log ≡ select (is_for key) done ++ pending w
  pub bounded : length w.queue ≤ 64
  pub own : every (is_for key) (pending w) ≡ true

select-own :
    (key j : String) (tasks : List CommandTask)
    → every (is_for key) tasks ≡ true
    → select (is_for j) tasks ≡ (if key == j then tasks else [])
select-own key j [] h = ground arith
select-own key j (task ∷ tasks) h = ground (
  arith,
  h,
  select-own key j tasks,
  eq_iff task.resource_key key,
  eq_iff task.resource_key j,
  eq_iff key j,
)

-- An idle worker takes the oldest task.
receive_queue-pending :
    (w : Worker) (tasks : List CommandTask)
    → w.running ≡ none
    → w.queue ≡ tasks
    → (pending (receive_queue w tasks) ≡ pending w)
      × (length (receive_queue w tasks).queue ≤ length w.queue)
unfolding receive_queue
receive_queue-pending w [] r q = (refl, omega arith)
receive_queue-pending w (task ∷ tasks) r q = ground (arith, r, q)

pub receive_worker-pending :
    (w : Worker)
    → (pending (receive_worker w) ≡ pending w) × (length (receive_worker w).queue ≤ length w.queue)
unfolding receive_worker
receive_worker-pending w = elim (Option-cases w.running) [
  | inr (task, r) ↦ ground (arith, r)
  | inl r ↦ elim (Bool-cases w.is_alive) [
    | inr a ↦ ground (arith, r, a)
    | inl a ↦ ground (arith, r, a, receive_queue-pending w w.queue r refl)
  ]
]

pending-push : (task : CommandTask) (w : Worker) → pending (push task w) ≡ pending w ++ (task ∷ [])
pending-push task w = sym (append_assoc (to_list w.running) w.queue (task ∷ []))

-- What ended was running, and was the oldest.
pub ended-pending :
    (w : Worker)
    → (to_list w.running ++ pending (finish_worker w) ≡ pending w)
      × (to_list w.running ++ pending (panic_worker w) ≡ pending w)
      × (length (panic_worker w).queue ≤ length w.queue)
ended-pending w = elim (Option-cases w.running) [
  | inl r ↦ ground (arith, r)
  | inr (task, r) ↦ ground (arith, r)
]

module _ {key : String} {log done : List CommandTask} {w : Worker}
    (i : IsInOrder key log done w) where
  pub same-IsInOrder :
      (v : Worker)
      → pending v ≡ pending w
      → length v.queue ≤ length w.queue
      → IsInOrder key log done v
  same-IsInOrder v p l = record {
    order = i.order ∙ ap (λ t. select (is_for key) done ++ t) (sym p);
    bounded = omega (arith, l, i.bounded);
    own = ap (every (is_for key)) p ∙ i.own;
  }

  pub ended-IsInOrder :
      (v : Worker)
      → to_list w.running ++ pending v ≡ pending w
      → length v.queue ≤ length w.queue
      → IsInOrder key log (done ++ to_list w.running) v
  ended-IsInOrder v p l =
      let parts : (every (is_for key) (to_list w.running) && every (is_for key) (pending v))
          ≡ true =
        sym (every-append (is_for key) (to_list w.running) (pending v))
        ∙ ap (every (is_for key)) p
        ∙ i.own in
      let mine : select (is_for key) (to_list w.running) ≡ to_list w.running =
        select-own key key (to_list w.running) (ground (arith, parts))
        ∙ ground (arith, eq_iff key key) in
      record {
        order =
            i.order
            ∙ ap (λ t. select (is_for key) done ++ t) (sym p)
            ∙ sym (append_assoc (select (is_for key) done) (to_list w.running) (pending v))
            ∙ ap (λ t. select (is_for key) done ++ t ++ pending v) (sym mine)
            ∙ ap (λ t. t ++ pending v) (sym (select-append (is_for key) done (to_list w.running)));
        bounded = omega (arith, l, i.bounded);
        own = ground (arith, parts);
      }

  -- The end of another key's task.
  pub others-IsInOrder :
      (other : String) (tasks : List CommandTask)
      → (other == key) ≡ false
      → every (is_for other) tasks ≡ true
      → IsInOrder key log (done ++ tasks) w
  others-IsInOrder other tasks n h =
      let nothing : select (is_for key) tasks ≡ [] =
        select-own other key tasks h ∙ ground (arith, n) in
      let rest : select (is_for key) (done ++ tasks) ≡ select (is_for key) done =
        select-append (is_for key) done tasks
        ∙ ap (λ t. select (is_for key) done ++ t) nothing
        ∙ append-nil (select (is_for key) done) in
      record {
        order = i.order ∙ ap (λ t. t ++ pending w) (sym rest);
        bounded = i.bounded;
        own = i.own;
      }

pub pushed-IsInOrder :
    (key : String) (log done : List CommandTask) (w : Worker) (task : CommandTask)
    → (task.resource_key == key) ≡ true
    → accepts w ≡ true
    → IsInOrder key log done w
    → IsInOrder key (log ++ (task ∷ [])) done (push task w)
pushed-IsInOrder key log done w task k a i = record {
  order =
      select-append (is_for key) log (task ∷ [])
      ∙ ap (λ t. t ++ select (is_for key) (task ∷ [])) i.order
      ∙ append_assoc (select (is_for key) done) (pending w) (select (is_for key) (task ∷ []))
      ∙ ap (λ t. select (is_for key) done ++ (pending w ++ t)) one
      ∙ ap (λ t. select (is_for key) done ++ t) (sym (pending-push task w));
  bounded = ground (arith, a, i.bounded, length-append w.queue (task ∷ []));
  own =
      ap (every (is_for key)) (pending-push task w)
      ∙ every-append (is_for key) (pending w) (task ∷ [])
      ∙ ground (arith, i.own, k);
}
  where
    one : select (is_for key) (task ∷ []) ≡ task ∷ []
    one = ground (arith, k)

pub unrelated-IsInOrder :
    (key : String) (log done : List CommandTask) (w : Worker) (task : CommandTask)
    → (task.resource_key == key) ≡ false
    → IsInOrder key log done w
    → IsInOrder key (log ++ (task ∷ [])) done w
unrelated-IsInOrder key log done w task k i = record {
  order =
      select-append (is_for key) log (task ∷ [])
      ∙ ap (λ t. select (is_for key) log ++ t) none_of
      ∙ append-nil (select (is_for key) log)
      ∙ i.order;
  bounded = i.bounded;
  own = i.own;
}
  where
    none_of : select (is_for key) (task ∷ []) ≡ []
    none_of = ground (arith, k)
