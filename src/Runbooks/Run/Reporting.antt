-- ===== src/Runbooks/Run/Reporting.antt =====
-- What a run reports: `run` of crates/ppb-server/src/automation/routes.rs.
use phira_plus_backend.Prelude.{
  ℕ, ◌≡◌, sym, subst, inl, inr, Bool, true, false, List, [], ◌∷◌, ◌++◌, arith,
}
use phira_plus_backend.Json.{Value}
use phira_plus_backend.ApiError.{ApiError, Result, ok, err, Result-cases, bind_ok, then_ok}
use phira_plus_backend.Auth.{AuthPrincipal, TokenLibrary, Header}
use phira_plus_backend.Actions.Execution.{Env}
use phira_plus_backend.Runbooks.{
  Runbook, RunbookStep, State, fetch_runbook, permitted, validate_step, validate_steps,
}
use phira_plus_backend.Runbooks.Steps.{
  World, Played, StepEnd, StepResult, went_on, broke, raised, play_step,
}
use phira_plus_backend.Runbooks.Steps.Endings.{
  IsOne, Reports, StepEnd-cases, label, play_step-Reports,
}
use phira_plus_backend.Runbooks.Run.{
  Body, RunbookExecutionResponse, body_args, close_run, finish, play_steps, played, run, startable,
  status_text,
}

-- The results of the steps of a run, in order: one for each step up to the end, or up to the step
-- that fails, which is the last; an error that ends the handler has none for its step.
pub data Report : List RunbookStep → StepEnd → List StepResult → Type 0 where
  completed : Report [] went_on []
  passed :
      {step : RunbookStep} {steps : List RunbookStep} {e : StepEnd} {rs : List StepResult}
      → (r : StepResult) → r.step ≡ label step
      → r.is_ok ≡ true
      → Report steps e rs
      → Report (step ∷ steps) e (r ∷ rs)
  stopped_at :
      {step : RunbookStep} {steps : List RunbookStep}
      → (r : StepResult) → r.step ≡ label step
      → r.is_ok ≡ false
      → Report (step ∷ steps) broke (r ∷ [])
  aborted :
      {step : RunbookStep} {steps : List RunbookStep}
      → (e : ApiError) → Report (step ∷ steps) (raised e) []

Report-first :
    (step : RunbookStep) (steps : List RunbookStep) (first rest : List StepResult) (e : StepEnd)
    → IsOne (label step) true first
    → Report steps e rest
    → Report (step ∷ steps) e (first ++ rest)
Report-first step steps first rest e one p =
    subst (λ rs. Report (step ∷ steps) e (rs ++ rest)) (sym one.only)
      (passed one.row one.named one.success p)

Report-last :
    (step : RunbookStep) (steps : List RunbookStep) (first : List StepResult)
    → IsOne (label step) false first
    → Report (step ∷ steps) broke first
Report-last step steps first one =
    subst (λ rs. Report (step ∷ steps) broke rs) (sym one.only)
      (stopped_at one.row one.named one.success)

module _ (env : Env) (lib : TokenLibrary) (world : World) (auth : AuthPrincipal) (header : Header)
    (id : ℕ) (run_args : Value) where
  play_steps-Report :
      (steps : List RunbookStep) (st : State)
      → validate_steps steps ≡ ok tt
      → Report steps
          (play_steps env lib world auth header id run_args steps st).ending
          (play_steps env lib world auth header id run_args steps st).results
  unfolding play_steps validate_steps
  play_steps-Report [] st v = completed
  play_steps-Report (step ∷ steps) st v =
      let first = play_step env lib world auth header id run_args step st in
      let (one, more) = then_ok (validate_step step) (validate_steps steps) tt v in
      let said = play_step-Reports env lib world auth header id run_args step st one in
      elim (StepEnd-cases first.ending) [
        | inl e ↦
            rw (play_steps, e)
              (Report-first step steps first.results _ _
                (subst (λ x. Reports (label step) x first.results) e said)
                (play_steps-Report steps first.state more))
        | inr (inl e) ↦
            rw (play_steps, e, e)
              (Report-last step steps first.results
                (subst (λ x. Reports (label step) x first.results) e said))
        | inr (inr (x, e)) ↦
            rw (play_steps, e, e, subst (λ y. Reports (label step) y first.results) e said)
              (aborted x)
      ]

abbrev pub end_of : Bool → StepEnd
end_of true = went_on
end_of false = broke

finish-ok :
    (run_id : ℕ) (p : Played) (response : RunbookExecutionResponse)
    → (finish run_id p).0 ≡ ok response
    → (is_ok : Bool) × (p.ending ≡ end_of is_ok)
      × (response.status ≡ status_text is_ok)
      × (response.results ≡ p.results)
unfolding finish close_run
finish-ok run_id p response h = elim (StepEnd-cases p.ending) [
  | inl e ↦ (true, e, ground (arith, e, h), ground (arith, e, h))
  | inr (inl e) ↦ (false, e, ground (arith, e, h), ground (arith, e, h))
  | inr (inr (x, e)) ↦ absurd (ground (arith, e, h))
]

-- What the answer to a run says of the runbook that was run.
pub record IsReport (id : ℕ) (st : State) (response : RunbookExecutionResponse) : Type 0 where
  pub runbook : Runbook
  pub is_ok : Bool
  pub fetched : fetch_runbook id st ≡ ok runbook
  pub status : response.status ≡ status_text is_ok
  pub report : Report runbook.definition.steps (end_of is_ok) response.results

startable-ok :
    (auth : AuthPrincipal) (id : ℕ) (body : Body) (st : State) (p : Runbook × Value)
    → startable auth id body st ≡ ok p
    → (fetch_runbook id st ≡ ok p.0) × (validate_steps p.0.definition.steps ≡ ok tt)
unfolding startable
startable-ok auth id body st p h =
    let (_, h1) = then_ok (permitted auth "automation:execute" st) _ p h in
    let (runbook, fetched, h2) = bind_ok (fetch_runbook id st) _ p h1 in
    let (valid, h3) = then_ok (validate_steps runbook.definition.steps) _ p h2 in
    let (args, _, last) = bind_ok (body_args body) _ p h3 in
    let same : (runbook, args) ≡ p = ground (arith, last) in
    subst
      (λ (q : Runbook × Value).
        (fetch_runbook id st ≡ ok q.0) × (validate_steps q.0.definition.steps ≡ ok tt))
      same (fetched, valid)

-- An answered run reports on the steps of the runbook that the request names, in their order and
-- under their names: the status is "succeeded" and there is a successful result for each, or it is
-- "failed" and the results end at the first step that failed.
pub run-IsReport :
    (env : Env) (lib : TokenLibrary) (world : World) (auth : AuthPrincipal) (header : Header)
    (run_id id : ℕ) (body : Body) (st : State) (response : RunbookExecutionResponse)
    → (run env lib world auth header run_id id body st).0 ≡ ok response
    → IsReport id st response
unfolding run played
run-IsReport env lib world auth header run_id id body st response h =
    elim (Result-cases (startable auth id body st)) [
      | inr (x, e) ↦ absurd (ground (arith, e, h))
      | inl ((runbook, args), e) ↦
          let (fetched, valid) = startable-ok auth id body st (runbook, args) e in
          let p = played env lib world auth header run_id runbook args st in
          let (is_ok, ended, status, results) = finish-ok run_id p response (
            subst
              (λ (r : Result (Runbook × Value)).
                (elim r as (λ x. Result RunbookExecutionResponse × State) [
                  | err y ↦ (err y, st)
                  | ok q ↦ finish run_id (played env lib world auth header run_id q.0 q.1 st)
                ]).0
                ≡ ok response)
              e h) in
          record {
            runbook = runbook;
            is_ok = is_ok;
            fetched = fetched;
            status = status;
            report =
                subst (λ rs. Report runbook.definition.steps (end_of is_ok) rs) (sym results)
                  (subst (λ x. Report runbook.definition.steps x p.results) ended
                    (play_steps-Report env lib world auth header runbook.id args
                      runbook.definition.steps _ valid));
          }
    ]
