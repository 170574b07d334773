-- ===== src/Jobs/Starting.antt =====
-- Starting a job: crates/ppb-server/src/jobs/runner.rs.
use phira_plus_backend.Prelude.{
  ℕ, ◌≡◌, ap, sym, subst, ◌∙◌, String, Bool, true, false, not, ◌&&◌, Option, none, some, List,
  arith, ◌==◌, nat_eq, string_eq, any, find, lookup, lookup-insert, Bool-cases, inl, inr,
}
use phira_plus_backend.ErrorCode.{job_already_running}
use phira_plus_backend.ApiError.{Result, ok, err, api_error, Result-cases}
use phira_plus_backend.Jobs.{
  Job, JobDescriptor, Runner, holds, has_id, descriptor_of, is_deployment, or_empty, create,
  insert_job, arm, start, cancel, run, queued, succeeded, failed, flag_is_set,
}
use phira_plus_backend.Jobs.Outcomes.{shown, run_succeeds, cancelled_job_fails}

-- While an active job holds the resource key of a job type, another job with that key is refused as
-- already running, and nothing changes.
pub start_conflict :
    (configured : String → Bool) (job_type key : String) (fresh flag : ℕ) (r : Runner)
    (d : JobDescriptor)
    → descriptor_of job_type ≡ some d
    → (is_deployment d.executor && not (configured job_type)) ≡ false
    → d.resource_key ≡ some key
    → (key == "") ≡ false
    → any (holds key) r.jobs ≡ true
    → start configured job_type fresh flag r
      ≡ (err (api_error job_already_running "job already running for this resource"), r)
unfolding start create insert_job or_empty
start_conflict configured job_type key fresh flag r d known able keyed set held =
    rw (known, start) (rw able (rw (keyed, or_empty) (ground (arith, set, held))))

-- What an accepted start leaves behind: the job's row, queued, and its flag, not set.
pub record IsArmed (j : Job) (job_type : String) (flag : ℕ) (r : Runner) : Type 0 where
  pub stored : find (has_id j.id) r.jobs ≡ some j
  pub waiting : j.state ≡ queued
  pub typed : j.type_ ≡ job_type
  pub armed : lookup j.id r.cancels ≡ some flag
  pub unset : flag_is_set flag r.flags ≡ false

create-row :
    (fresh : ℕ) (job_type key : String) (jobs js : List Job) (j : Job)
    → create fresh job_type key jobs ≡ ok (j, js)
    → (find (has_id j.id) js ≡ some j) × (j.state ≡ queued) × (j.type_ ≡ job_type)
unfolding create insert_job
create-row fresh job_type key jobs js j h =
    (ground (arith, h), ground (arith, h), ground (arith, h))

accepted-IsArmed :
    (job_type key : String) (fresh flag : ℕ) (r : Runner) (js : List Job) (j : Job)
    → create fresh job_type key r.jobs ≡ ok (j, js)
    → IsArmed j job_type flag (arm j.id flag (record r { jobs = js }))
unfolding arm flag_is_set
accepted-IsArmed job_type key fresh flag r js j c =
    let row = create-row fresh job_type key r.jobs js j c in
    record {
      stored = row.0;
      waiting = row.1;
      typed = row.2;
      armed = ground (arith, lookup-insert j.id j.id flag r.cancels);
      unset = ground (arith, lookup-insert flag flag false r.flags);
    }

start-IsArmed :
    (configured : String → Bool) (job_type : String) (fresh flag : ℕ) (r r' : Runner) (j : Job)
    (d : JobDescriptor)
    → descriptor_of job_type ≡ some d
    → start configured job_type fresh flag r ≡ (ok j, r')
    → IsArmed j job_type flag r'
unfolding start
start-IsArmed configured job_type fresh flag r r' j d e h =
    elim (Result-cases (create fresh job_type (or_empty d.resource_key) r.jobs)) [
      | inr (x, c) ↦ absurd (ground (arith, e, c, h))
      | inl ((k, js), c) ↦
          elim (Bool-cases (is_deployment d.executor && not (configured job_type))) [
            | inl b ↦ absurd (ground (arith, e, b, h))
            | inr b ↦
                let made : start configured job_type fresh flag r
                    ≡ (ok k, arm k.id flag (record r { jobs = js })) =
                  rw (e, start) (rw (b, c)) in
                let same : k ≡ j = ground (arith, made, h) in
                let after : arm k.id flag (record r { jobs = js }) ≡ r' =
                  ap (λ (p : Result Job × Runner). p.1) (sym made ∙ h) in
                subst (λ x. IsArmed x job_type flag r') same
                  (subst (IsArmed k job_type flag) after
                    (accepted-IsArmed job_type (or_empty d.resource_key) fresh flag r js k c))
          ]
    ]

-- A job whose start was accepted succeeds when its dispatch does: its task, run from the state that
-- the start left, stores `succeeded` and the terminal stage of its type.
pub started_job_succeeds :
    (configured : String → Bool) (job_type : String) (fresh flag t0 t1 t2 : ℕ) (r r' : Runner)
    (j : Job) (d : JobDescriptor)
    → descriptor_of job_type ≡ some d
    → start configured job_type fresh flag r ≡ (ok j, r')
    → shown j.id (run t0 t1 t2 j.id job_type flag none r') ≡ some (succeeded, d.terminal, "")
started_job_succeeds configured job_type fresh flag t0 t1 t2 r r' j d known h =
    let v = start-IsArmed configured job_type fresh flag r r' j d known h in
    run_succeeds t0 t1 t2 j.id job_type flag r' d known (ground (arith, v.stored)) v.unset

-- A job that was started and then cancelled before its task ran: the cancellation is accepted, and
-- the task ends the job as `failed`, with the text `cancelled` as its error, whatever the dispatch
-- would have answered. No such job is left in the state `cancelled`.
pub started_then_cancelled :
    (configured : String → Bool) (job_type : String) (fresh flag t0 t1 t2 : ℕ)
    (answer : Option String) (r r' : Runner) (j : Job) (d : JobDescriptor)
    → descriptor_of job_type ≡ some d
    → start configured job_type fresh flag r ≡ (ok j, r')
    → ((cancel j.id r').0 ≡ ok tt)
      × (shown j.id (run t0 t1 t2 j.id job_type flag answer (cancel j.id r').1)
          ≡ some (failed, "failed", "cancelled"))
started_then_cancelled configured job_type fresh flag t0 t1 t2 answer r r' j d known h =
    let v = start-IsArmed configured job_type fresh flag r r' j d known h in
    subst
      (λ t.
        ((cancel j.id r').0 ≡ ok tt)
        × (shown j.id (run t0 t1 t2 j.id t flag answer (cancel j.id r').1)
            ≡ some (failed, "failed", "cancelled")))
      v.typed
      (cancelled_job_fails t0 t1 t2 j.id flag answer r' j d v.stored v.waiting
        (subst (λ t. descriptor_of t ≡ some d) (sym v.typed) known) v.armed)
