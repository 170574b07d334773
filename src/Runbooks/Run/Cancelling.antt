-- ===== src/Runbooks/Run/Cancelling.antt =====
-- The row of a run after the handler: `run` and `cancel_run` of
-- crates/ppb-server/src/automation/routes.rs.
use phira_plus_backend.Prelude.{
  ℕ, ◌≡◌, ◌∙◌, refl, sym, ap, ◌⊎◌, inl, inr, String, Bool, true, false, not, ◌||◌, List, [], ◌∷◌,
  ◌==◌, nat_eq, string_eq, eq_iff, every, some, update_where, arith,
}
use phira_plus_backend.Json.{Value}
use phira_plus_backend.ApiError.{ApiError, ok, err, Result-cases}
use phira_plus_backend.Auth.{AuthPrincipal, TokenLibrary, Header}
use phira_plus_backend.Actions.{ActionDescriptor, find_action, is_job_only_action}
use phira_plus_backend.Actions.Execution.{Env}
use phira_plus_backend.Runbooks.{
  Runbook, RunbookRun, RunbookStep, State, is_run, with_status, has_action,
}
use phira_plus_backend.Runbooks.Steps.{World, Played, raised, play_step, cleared, stopped}
use phira_plus_backend.Runbooks.Steps.Endings.{StepEnd-cases}
use phira_plus_backend.Runbooks.Steps.Gates.{cleared-runs, play_step-raised}
use phira_plus_backend.Runbooks.Run.{
  Body, RunbookExecutionResponse, close_run, finish, new_run, play_steps, played, run, startable,
  status_text,
}

-- The row has the status that was answered.
abbrev pub has_answer : ℕ → RunbookExecutionResponse → RunbookRun → Bool
has_answer run_id response r = not (is_run run_id r) || r.status == response.status

every-with_status :
    (run_id : ℕ) (status : String) (runs : List RunbookRun)
    → every
        (λ r. not (is_run run_id r) || r.status == status)
        (update_where (is_run run_id) (with_status status) runs)
      ≡ true
every-with_status run_id status [] = refl
every-with_status run_id status (r ∷ runs) =
    ground (arith, every-with_status run_id status runs, eq_iff status status)

finish-has_answer :
    (run_id : ℕ) (p : Played) (response : RunbookExecutionResponse)
    → (finish run_id p).0 ≡ ok response
    → (every (has_answer run_id response) (finish run_id p).1.runs ≡ true)
      × ((response.status ≡ "succeeded") ⊎ (response.status ≡ "failed"))
unfolding finish close_run
finish-has_answer run_id p response h = elim (StepEnd-cases p.ending) [
  | inl e ↦
      let same : status_text true ≡ response.status = ground (arith, e, h) in
      (rw (finish, e, sym same) (every-with_status run_id "succeeded" p.state.runs), inl (sym same))
  | inr (inl e) ↦
      let same : status_text false ≡ response.status = ground (arith, e, h) in
      (rw (finish, e, sym same) (every-with_status run_id "failed" p.state.runs), inr (sym same))
  | inr (inr (x, e)) ↦ absurd (ground (arith, e, h))
]

-- After an answered run its row says what was answered, "succeeded" or "failed", whatever other
-- handlers have done to it in the meantime, a cancellation included.
pub run-has_answer :
    (env : Env) (lib : TokenLibrary) (world : World) (auth : AuthPrincipal) (header : Header)
    (run_id id : ℕ) (body : Body) (st : State) (response : RunbookExecutionResponse)
    → (run env lib world auth header run_id id body st).0 ≡ ok response
    → (every (has_answer run_id response) (run env lib world auth header run_id id body st).1.runs
        ≡ true)
      × ((response.status ≡ "succeeded") ⊎ (response.status ≡ "failed"))
unfolding run
run-has_answer env lib world auth header run_id id body st response h =
    elim (Result-cases (startable auth id body st)) [
      | inr (x, e) ↦ absurd (ground (arith, e, h))
      | inl ((runbook, args), e) ↦
          let p = played env lib world auth header run_id runbook args st in
          let same : run env lib world auth header run_id id body st ≡ finish run_id p =
            rw (run, e) refl in
          let (all, status) = finish-has_answer run_id p response (sym (ap (λ r. r.0) same) ∙ h) in
          (ap (λ r. every (has_answer run_id response) r.1.runs) same ∙ all, status)
    ]

play_steps-raised :
    (env : Env) (lib : TokenLibrary) (world : World) (auth : AuthPrincipal) (header : Header)
    (id : ℕ) (args : Value) (step : RunbookStep) (steps : List RunbookStep) (st : State)
    (e : ApiError)
    → play_step env lib world auth header id args step st ≡ stopped (raised e) [] st
    → play_steps env lib world auth header id args (step ∷ steps) st ≡ stopped (raised e) [] st
unfolding play_steps
play_steps-raised env lib world auth header id args step steps st e h = rw (play_steps, h) h

-- A run whose first step is refused by its reauthentication or by the resolver ends in that error
-- and leaves its row "running".
pub run-left_running :
    (env : Env) (lib : TokenLibrary) (world : World) (auth : AuthPrincipal) (header : Header)
    (run_id id : ℕ) (body : Body) (st : State) (runbook : Runbook) (args : Value)
    (step : RunbookStep) (steps : List RunbookStep) (action : ActionDescriptor) (e : ApiError)
    → startable auth id body st ≡ ok (runbook, args)
    → runbook.definition.steps ≡ step ∷ steps
    → has_action step ≡ true
    → find_action step.action ≡ some action
    → (action.long_running || is_job_only_action action.id) ≡ false
    → cleared lib auth header action st ≡ err e
    → run env lib world auth header run_id id body st
      ≡ (err e, record st { runs = new_run env auth run_id runbook args ∷ st.runs })
unfolding run played finish
run-left_running env lib world auth header run_id id body st runbook args step steps action e s
      listed h found short refused =
    let started = record st { runs = new_run env auth run_id runbook args ∷ st.runs } in
    let first =
      play_step-raised env lib world auth header runbook.id args step action started e h found short
        (cleared-runs lib auth header action st started.runs ∙ refused) in
    let same : played env lib world auth header run_id runbook args st
        ≡ stopped (raised e) [] started =
      ap (λ ss. play_steps env lib world auth header runbook.id args ss started) listed
      ∙ play_steps-raised env lib world auth header runbook.id args step steps started e first in
    rw (run, s, same) refl
