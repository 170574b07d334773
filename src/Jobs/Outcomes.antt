-- ===== src/Jobs/Outcomes.antt =====
-- How a job's task ends: crates/ppb-server/src/jobs/runner.rs.
use mathlib.Core.Option
use Prim.Native.String.{◌++◌ as string_append}
use Prim.Native.String.append
use Prim.Native.Char.{code}
use phira_plus_backend.Prelude.{
  ℕ, ◌≡◌, ◌≢◌, refl, ap, sym, ◌∙◌, String, true, false, Option, none, some, List, [], ◌∷◌, arith,
  ◌==◌, nat_eq, string_eq, eq_iff, find, update_where, insert, lookup, lookup-insert, if◌then◌else◌,
  Bool-cases, Option-cases, inl, inr, is_some,
}
use phira_plus_backend.ApiError.{ok}
use phira_plus_backend.Jobs.{
  Job, JobState, JobDescriptor, Runner, has_id, is_active, update_job, clashes, with_state,
  update_state, advance, descriptor_of, cancel, cancel_in_state, set_flag, find_job, begin, execute,
  conclude, dispatch, run, Outcome, done, error, queued, running, cancelled, succeeded, failed,
  not_implemented, flag_is_set, fixed_cli,
}

-- The state, stage and error that the table shows for a job.
abbrev pub shown : ℕ → Runner → Option (JobState × String × String)
shown id r = Option.map (λ (j : Job). (j.state, j.stage, j.error)) (find (has_id id) r.jobs)

find-update_where :
    (id : ℕ) (f : Job → Job) (jobs : List Job)
    → ((j : Job) → (f j).id ≡ j.id)
    → find (has_id id) (update_where (has_id id) f jobs) ≡ Option.map f (find (has_id id) jobs)
find-update_where id f [] h = refl
find-update_where id f (j ∷ jobs) h = ground (arith, h j, find-update_where id f jobs h)

-- The task's updates find the row again.
update_state-found :
    (now id : ℕ) (st : JobState) (stage e : String) (r : Runner)
    → is_some (find (has_id id) r.jobs) ≡ true
    → is_some (find (has_id id) (update_state now id st stage e r).jobs) ≡ true
unfolding update_state update_job
update_state-found now id st stage e r h = ground (
  arith,
  find-update_where id (with_state now st stage e) r.jobs (λ j. unfold with_state in refl),
)

-- A state that is not active is always stored: it takes no key.
update_state-shown :
    (now id : ℕ) (st : JobState) (stage e : String) (r : Runner)
    → is_active st ≡ false
    → is_some (find (has_id id) r.jobs) ≡ true
    → shown id (update_state now id st stage e r) ≡ some (st, stage, e)
unfolding update_state update_job clashes with_state
update_state-shown now id st stage e r a h =
    ground (arith, a, find-update_where id (with_state now st stage e) r.jobs (λ j. refl))

begin-found :
    (now id : ℕ) (r : Runner)
    → is_some (find (has_id id) r.jobs) ≡ true
    → is_some (find (has_id id) (begin now id r).jobs) ≡ true
unfolding begin advance
begin-found now id r h = update_state-found now id running "starting" "" r h

begin-flags : (now id : ℕ) (r : Runner) → (begin now id r).flags ≡ r.flags
unfolding begin advance update_state
begin-flags now id r = refl

execute-found :
    (now id : ℕ) (job_type : String) (flag : ℕ) (answer : Option String) (r : Runner)
    → is_some (find (has_id id) r.jobs) ≡ true
    → is_some (find (has_id id) (execute now id job_type flag answer r).1.jobs) ≡ true
unfolding execute advance
execute-found now id job_type flag answer r h = elim (Option-cases (descriptor_of job_type)) [
  | inl e ↦ rw (e, execute) h
  | inr (d, e) ↦
      rw (e, execute)
        (elim (Bool-cases (flag_is_set flag r.flags)) [
          | inl b ↦ rw b (update_state-found now id cancelled "cancelled" "cancelled" r h)
          | inr b ↦ rw b (update_state-found now id running d.stage "" r h)
        ])
]

-- What the table shows after an outcome is stored.
pub ending : Outcome → JobState × String × String
ending (done stage) = (succeeded, stage, "")
ending (error e) =
    if e == "not_implemented"
    then (not_implemented, "not_implemented", e)
    else (failed, (if e == "timeout" then "timeout" else "failed"), e)

conclude-shown :
    (now id : ℕ) (o : Outcome) (r : Runner)
    → is_some (find (has_id id) r.jobs) ≡ true
    → shown id (conclude now id (o, r)) ≡ some (ending o)
unfolding conclude advance ending
conclude-shown now id (done stage) r h = update_state-shown now id succeeded stage "" r refl h
conclude-shown now id (error e) r h = elim (Bool-cases (e == "not_implemented")) [
  | inl b ↦ rw b (update_state-shown now id not_implemented "not_implemented" e r refl h)
  | inr b ↦
      rw b (
        update_state-shown now id failed (if e == "timeout" then "timeout" else "failed") e r refl
          h)
]

execute-outcome :
    (now id : ℕ) (job_type : String) (flag : ℕ) (answer : Option String) (r : Runner)
    (d : JobDescriptor)
    → descriptor_of job_type ≡ some d
    → (execute now id job_type flag answer r).0
      ≡ (if flag_is_set flag r.flags then error "cancelled" else dispatch d answer)
unfolding execute
execute-outcome now id job_type flag answer r d e = rw (e, execute) (ground arith)

-- A task stores the outcome of its job, and nothing of its steps before.
pub run-shown :
    (t0 t1 t2 id : ℕ) (job_type : String) (flag : ℕ) (answer : Option String) (r : Runner)
    (d : JobDescriptor)
    → descriptor_of job_type ≡ some d
    → is_some (find (has_id id) r.jobs) ≡ true
    → shown id (run t0 t1 t2 id job_type flag answer r)
      ≡ some (ending (if flag_is_set flag r.flags then error "cancelled" else dispatch d answer))
unfolding run
run-shown t0 t1 t2 id job_type flag answer r d e h =
    let b = begin t0 id r in
    conclude-shown t2 id (execute t1 id job_type flag answer b).0
      (execute t1 id job_type flag answer b).1
      (execute-found t1 id job_type flag answer b (begin-found t0 id r h))
    ∙ ap (λ o. some (ending o))
        (execute-outcome t1 id job_type flag answer b d e
          ∙ ap (λ fs. if flag_is_set flag fs then error "cancelled" else dispatch d answer)
              (begin-flags t0 id r))

-- A started job whose flag nobody sets succeeds, at the terminal stage of its type, if the dispatch
-- succeeds.
pub run_succeeds :
    (t0 t1 t2 id : ℕ) (job_type : String) (flag : ℕ) (r : Runner) (d : JobDescriptor)
    → descriptor_of job_type ≡ some d
    → is_some (find (has_id id) r.jobs) ≡ true
    → flag_is_set flag r.flags ≡ false
    → shown id (run t0 t1 t2 id job_type flag none r) ≡ some (succeeded, d.terminal, "")
run_succeeds t0 t1 t2 id job_type flag r d e h f =
    run-shown t0 t1 t2 id job_type flag none r d e h ∙ rw f (unfold ending dispatch in refl)

head_code : String → Option ℕ
head_code String.[] = none
head_code (String.◌∷◌ c s) = some (code c)

-- A text with the prefix differs from one that begins with another letter.
prefixed_ne :
    (e s : String) (n : ℕ)
    → head_code s ≡ some n
    → n ≢ b'f'
    → (string_append "failed: " e == s) ≡ false
unfolding head_code
prefixed_ne e s n h ne = elim (Bool-cases (string_append "failed: " e == s)) [
  | inr b ↦ b
  | inl b ↦
      let same : string_append "failed: " e ≡ s = (eq_iff (string_append "failed: " e) s).0 b in
      let first : some b'f' ≡ head_code s =
        ap head_code (sym (λ i. append.cons "f" "ailed: " e i) ∙ same) in
      absurd (ne (ground (arith, first, h)))
]

-- A job run by a fixed command of PMP ends at the stage `failed` whatever error the command gives,
-- a timeout included: the stored text has a prefix, and the stage `timeout` is for the bare word.
pub run_cli_fails :
    (t0 t1 t2 id : ℕ) (job_type : String) (flag : ℕ) (r : Runner) (d : JobDescriptor)
    (command e : String)
    → descriptor_of job_type ≡ some d
    → d.executor ≡ fixed_cli command
    → is_some (find (has_id id) r.jobs) ≡ true
    → flag_is_set flag r.flags ≡ false
    → shown id (run t0 t1 t2 id job_type flag (some e) r)
      ≡ some (failed, "failed", string_append "failed: " e)
unfolding head_code
run_cli_fails t0 t1 t2 id job_type flag r d command e known cli h f =
    run-shown t0 t1 t2 id job_type flag (some e) r d known h
    ∙ rw f (
        unfold ending dispatch in
        ground (
          arith,
          cli,
          prefixed_ne e "timeout" b't' refl (omega arith),
          prefixed_ne e "not_implemented" b'n' refl (omega arith),
        ))

pub cancel_queued :
    (id flag : ℕ) (r : Runner) (j : Job) (d : JobDescriptor)
    → find (has_id id) r.jobs ≡ some j
    → j.state ≡ queued
    → descriptor_of j.type_ ≡ some d
    → lookup id r.cancels ≡ some flag
    → cancel id r ≡ (ok tt, record r { flags = insert flag true r.flags })
unfolding cancel find_job cancel_in_state set_flag
cancel_queued id flag r j d found waits known armed = ground arith

-- A queued job's cancellation is accepted, and its task then ends it as `failed`, with the text
-- `cancelled` as its error: no cancelled job is left in the state `cancelled`.
pub cancelled_job_fails :
    (t0 t1 t2 id flag : ℕ) (answer : Option String) (r : Runner) (j : Job) (d : JobDescriptor)
    → find (has_id id) r.jobs ≡ some j
    → j.state ≡ queued
    → descriptor_of j.type_ ≡ some d
    → lookup id r.cancels ≡ some flag
    → ((cancel id r).0 ≡ ok tt)
      × (shown id (run t0 t1 t2 id j.type_ flag answer (cancel id r).1)
          ≡ some (failed, "failed", "cancelled"))
cancelled_job_fails t0 t1 t2 id flag answer r j d found waits known armed =
    let c = cancel_queued id flag r j d found waits known armed in
    let r1 = record r { flags = insert flag true r.flags } in
    rw c (
      refl,
      run-shown t0 t1 t2 id j.type_ flag answer r1 d known (ground (arith, found))
          ∙ unfold ending flag_is_set in ground (arith, lookup-insert flag flag true r.flags),
    )
