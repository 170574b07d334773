-- ===== src/Jobs/Reachable.antt =====
-- Every interleaving of the job runner's calls and of the parts of its tasks:
-- crates/ppb-server/src/jobs/runner.rs.
use phira_plus_backend.Prelude.{
  ℕ, ◌≡◌, ◌≤◌, refl, String, count_where, eq_iff, ◌∷◌, Bool, false, not, ◌&&◌, Option, none, some,
  List, [], arith, ◌==◌, nat_eq, string_eq, any, remove, lookup, sym, subst, if◌then◌else◌,
  Bool-cases, Option-cases, inl, inr,
}
use phira_plus_backend.ApiError.{Result, Result-cases}
use phira_plus_backend.Jobs.{
  Job, JobState, Runner, has_id, is_deployment, or_empty, update_job, create, descriptor_of, start,
  cancel, retry, requeued, arm, set_flag, find_job, may_retry, resource_free, cancel_in_state,
  running, begin, execute, conclude, Outcome, done, error, before_dispatch, queued, cancelled,
  succeeded, failed, not_implemented, flag_is_set, CancelMode, is_active, holds,
}
use phira_plus_backend.Jobs.Exclusion.{
  IsExclusive, is_mistyped, resource_of, update_job-IsExclusive, advance-IsExclusive,
  create-IsExclusive,
}

abbrev pub empty : Runner
empty = record { jobs = []; cancels = []; flags = []; published = [] }

start-IsExclusive :
    (configured : String → Bool) (job_type : String) (fresh flag : ℕ) (r : Runner)
    → any (has_id fresh) r.jobs ≡ false
    → IsExclusive r.jobs
    → IsExclusive (start configured job_type fresh flag r).1.jobs
unfolding start arm
start-IsExclusive configured job_type fresh flag r new v =
    elim (Option-cases (descriptor_of job_type)) [
      | inl e ↦ rw (e, start) v
      | inr (d, e) ↦ elim (Result-cases (create fresh job_type (or_empty d.resource_key) r.jobs)) [
        | inl ((j, js), c) ↦
            let w =
              create-IsExclusive fresh job_type (or_empty d.resource_key) r.jobs js j new
                (rw (resource_of, e) refl) c v in
            rw (e, start)
              (elim (Bool-cases (is_deployment d.executor && not (configured job_type))) [
                | inl b ↦ rw b v
                | inr b ↦ rw (b, c) w
              ])
        | inr (x, c) ↦
            rw (e, start)
              (elim (Bool-cases (is_deployment d.executor && not (configured job_type))) [
                | inl b ↦ rw b v
                | inr b ↦ rw (b, c) v
              ])
      ]
    ]

set_flag-jobs : (o : Option ℕ) (r : Runner) → (set_flag o r).jobs ≡ r.jobs
unfolding set_flag
set_flag-jobs none r = refl
set_flag-jobs (some flag) r = refl

cancel_in_state-jobs :
    (st : JobState) (id : ℕ) (r : Runner) → (cancel_in_state st id r).1.jobs ≡ r.jobs
unfolding cancel_in_state
cancel_in_state-jobs queued id r = set_flag-jobs (lookup id r.cancels) r
cancel_in_state-jobs running id r = refl
cancel_in_state-jobs _ id r = refl

-- Cancelling writes no row.
pub cancel-jobs : (id : ℕ) (r : Runner) → (cancel id r).1.jobs ≡ r.jobs
unfolding cancel
cancel-jobs id r = elim (Result-cases (find_job id r.jobs)) [
  | inr (x, e) ↦ rw (e, cancel)
  | inl (j, e) ↦ elim (Option-cases (descriptor_of j.type_)) [
    | inl c ↦ rw (e, c, cancel)
    | inr (d, c) ↦ rw (e, c, cancel) (with_mode d.cancel_mode j.state)
  ]
]
  where
    with_mode :
        (m : CancelMode) (st : JobState)
        → (elim m as (λ _. Result (Unit {0}) × Runner) [
          | before_dispatch ↦ cancel_in_state st id r
        ]).1.jobs
          ≡ r.jobs
    with_mode before_dispatch st = cancel_in_state-jobs st id r

requeue-IsExclusive :
    (id flag : ℕ) (r : Runner) (jobs : List Job)
    → update_job id requeued r.jobs ≡ some jobs
    → IsExclusive r.jobs
    → IsExclusive jobs
requeue-IsExclusive id flag r jobs h v =
    update_job-IsExclusive id requeued r.jobs jobs (λ j. unfold requeued in (refl, refl, refl)) h v

retry-IsExclusive :
    (id flag : ℕ) (r : Runner) → IsExclusive r.jobs → IsExclusive (retry id flag r).1.jobs
unfolding retry arm
retry-IsExclusive id flag r v = elim (Result-cases (find_job id r.jobs)) [
  | inr (x, e) ↦ rw (e, retry) v
  | inl (j, e) ↦ elim (Bool-cases (may_retry j.state)) [
    | inr m ↦ rw (e, m, retry) v
    | inl m ↦ elim (Option-cases (descriptor_of j.type_)) [
      | inl c ↦ rw (e, m, c, retry) v
      | inr (d, c) ↦ elim (Bool-cases (resource_free d.resource_key r.jobs)) [
        | inr f ↦ rw (e, m, c, f, retry) v
        | inl f ↦ elim (Option-cases (update_job id requeued r.jobs)) [
          | inl u ↦ rw (e, m, c, f, u, retry) v
          | inr (jobs, u) ↦ rw (e, m, c, f, u, retry) (requeue-IsExclusive id flag r jobs u v)
        ]
      ]
    ]
  ]
]

execute-IsExclusive :
    (now id : ℕ) (job_type : String) (flag : ℕ) (answer : Option String) (r : Runner)
    → IsExclusive r.jobs
    → IsExclusive (execute now id job_type flag answer r).1.jobs
unfolding execute
execute-IsExclusive now id job_type flag answer r v = elim (Option-cases (descriptor_of job_type)) [
  | inl e ↦ rw (e, execute) v
  | inr (d, e) ↦
      rw (e, execute)
        (elim (Bool-cases (flag_is_set flag r.flags)) [
          | inl b ↦ rw b (advance-IsExclusive now id cancelled "cancelled" "cancelled" r v)
          | inr b ↦ rw b (advance-IsExclusive now id running d.stage "" r v)
        ])
]

conclude-IsExclusive :
    (now id : ℕ) (o : Outcome) (r : Runner)
    → IsExclusive r.jobs
    → IsExclusive (conclude now id (o, r)).jobs
unfolding conclude
conclude-IsExclusive now id (done stage) r v = advance-IsExclusive now id succeeded stage "" r v
conclude-IsExclusive now id (error e) r v = elim (Bool-cases (e == "not_implemented")) [
  | inl b ↦ rw b (advance-IsExclusive now id not_implemented "not_implemented" e r v)
  | inr b ↦
      rw b
        (advance-IsExclusive now id failed (if e == "timeout" then "timeout" else "failed") e r v)
]

-- The calls of the routes and the parts of the spawned tasks, each a step. A step may come at any
-- time: nothing is assumed of the order.
pub data Step (r : Runner) : Runner → Type 0 where
  started :
      (configured : String → Bool) (job_type : String) (fresh flag : ℕ)
      → any (has_id fresh) r.jobs ≡ false
      → Step r (start configured job_type fresh flag r).1
  cancelled_by : (id : ℕ) → Step r (cancel id r).1
  retried : (id flag : ℕ) → Step r (retry id flag r).1
  began : (now id : ℕ) → Step r (begin now id r)
  executed :
      (now id : ℕ) (job_type : String) (flag : ℕ) (answer : Option String)
      → Step r (execute now id job_type flag answer r).1
  concluded : (now id : ℕ) (o : Outcome) → Step r (conclude now id (o, r))
  forgotten : (id : ℕ) → Step r (record r { cancels = remove id r.cancels })

pub data Reach : Runner → Type 0 where
  here : Reach empty
  next : {r s : Runner} → Reach r → Step r s → Reach s

Step-IsExclusive : {r s : Runner} → Step r s → IsExclusive r.jobs → IsExclusive s.jobs
unfolding begin
Step-IsExclusive {r} (started configured job_type fresh flag new) v =
    start-IsExclusive configured job_type fresh flag r new v
Step-IsExclusive {r} (cancelled_by id) v = subst IsExclusive (sym (cancel-jobs id r)) v
Step-IsExclusive {r} (retried id flag) v = retry-IsExclusive id flag r v
Step-IsExclusive {r} (began now id) v = advance-IsExclusive now id running "starting" "" r v
Step-IsExclusive {r} (executed now id job_type flag answer) v =
    execute-IsExclusive now id job_type flag answer r v
Step-IsExclusive {r} (concluded now id o) v = conclude-IsExclusive now id o r v
Step-IsExclusive {r} (forgotten id) v = v

Reach-IsExclusive : {r : Runner} → Reach r → IsExclusive r.jobs
Reach-IsExclusive here = record {
  distinct = λ id. omega arith;
  exclusive = λ key k. omega arith;
  typed = refl;
}
Reach-IsExclusive (next p st) = Step-IsExclusive st (Reach-IsExclusive p)

-- An active job of a type that works on the resource.
abbrev pub works_on : String → Job → Bool
works_on resource j = is_active j.state && resource_of j.type_ == resource

count_where-works_on :
    (resource : String) (jobs : List Job)
    → count_where is_mistyped jobs ≡ 0
    → count_where (works_on resource) jobs ≡ count_where (holds resource) jobs
count_where-works_on resource [] h = refl
count_where-works_on resource (j ∷ jobs) h =
    elim (Bool-cases (j.resource_key == resource_of j.type_)) [
      | inl e ↦
          let same = (eq_iff j.resource_key (resource_of j.type_)).0 e in
          rw (count_where-works_on resource jobs (ground (arith, h, e)), sym same) (ground arith)
      | inr e ↦ absurd (ground (arith, h, e))
    ]

-- In every reachable state, whatever the interleaving of the steps, at most one queued or running
-- job is of a type that works on a given resource, by the registry, whatever their types.
pub Reach-one_per_resource :
    {r : Runner} (p : Reach r) (resource : String)
    → (resource == "") ≡ false
    → count_where (works_on resource) r.jobs ≤ 1
Reach-one_per_resource {r} p resource set =
    let v = Reach-IsExclusive p in
    rw (count_where-works_on resource r.jobs v.typed) (v.exclusive resource set)
