-- ===== src/Runbooks/Steps/Endings.antt =====
-- What a step reports by the way that it leaves the loop of `run` in
-- crates/ppb-server/src/automation/routes.rs.
use phira_plus_backend.Prelude.{
  ℕ, ◌≡◌, refl, ◌⊎◌, inl, inr, String, Bool, true, false, ◌||◌, Option, none, some, List, [], ◌∷◌,
  string_eq, is_some, Bool-cases, Option-cases, arith, if◌then◌else◌,
}
use phira_plus_backend.Json.{Value}
use phira_plus_backend.ApiError.{ApiError, ok, Result-cases}
use phira_plus_backend.Auth.{AuthPrincipal, TokenLibrary, Header}
use phira_plus_backend.Actions.{ActionDescriptor, find_action, is_job_only_action}
use phira_plus_backend.Actions.Execution.{Env, Outcome, succeeded, failed, CommandTask}
use phira_plus_backend.Actions.Broker.{submit}
use phira_plus_backend.Runbooks.{RunbookStep, State, has_action, validate_step}
use phira_plus_backend.Runbooks.Steps.{
  World, Queued, StepEnd, StepResult, went_on, broke, raised, cleared, settle, play_task, stored,
  play_action, play_wait, play_step,
}

pub StepEnd-cases :
    (e : StepEnd) → (e ≡ went_on) ⊎ ((e ≡ broke) ⊎ ((x : ApiError) × (e ≡ raised x)))
StepEnd-cases went_on = inl refl
StepEnd-cases broke = inr (inl refl)
StepEnd-cases (raised x) = inr (inr (x, refl))

-- The name under which a step is reported.
abbrev pub label : RunbookStep → String
label step = if has_action step then step.action else "wait"

-- One result, with its step's name.
pub record IsOne (name : String) (succeeds : Bool) (rs : List StepResult) : Type 0 where
  pub row : StepResult
  pub only : rs ≡ row ∷ []
  pub named : row.step ≡ name
  pub success : row.is_ok ≡ succeeds

abbrev pub Reports : String → StepEnd → List StepResult → Type 0
Reports name went_on rs = IsOne name true rs
Reports name broke rs = IsOne name false rs
Reports name (raised e) rs = rs ≡ []

settle-Reports :
    (world : World) (step : RunbookStep) (q : Queued) (done : Option Outcome × State)
    → Reports step.action (settle world step q done).ending (settle world step q done).results
unfolding settle
settle-Reports world step q (none, st) = record {
  row = _;
  only = refl;
  named = refl;
  success = refl;
}
settle-Reports world step q (some (succeeded v), st) = record {
  row = _;
  only = refl;
  named = refl;
  success = refl;
}
settle-Reports world step q (some (failed e), st) = record {
  row = _;
  only = refl;
  named = refl;
  success = refl;
}

play_task-Reports :
    (world : World) (step : RunbookStep) (task : CommandTask) (st : State)
    → Reports step.action
        (play_task world step task st).ending
        (play_task world step task st).results
unfolding play_task
play_task-Reports world step task st = elim (Result-cases (submit task st.workers).0) [
  | inr (x, e) ↦ rw (play_task, e) refl
  | inl (done, e) ↦
      rw (play_task, e)
        (settle-Reports world step (record { state = st; task = task })
          (world.complete task (stored task st)))
]

play_action-Reports :
    (env : Env) (lib : TokenLibrary) (world : World) (auth : AuthPrincipal) (header : Header)
    (id : ℕ) (run_args : Value) (step : RunbookStep) (action : ActionDescriptor) (st : State)
    → Reports step.action
        (play_action env lib world auth header id run_args step action st).ending
        (play_action env lib world auth header id run_args step action st).results
unfolding play_action
play_action-Reports env lib world auth header id run_args step action st =
    elim (Bool-cases (action.long_running || is_job_only_action action.id)) [
      | inl l ↦ rw (play_action, l) (record { row = _; only = refl; named = refl; success = refl })
      | inr s ↦ elim (Result-cases (cleared lib auth header action st)) [
        | inr (x, e) ↦ rw (play_action, s, e) refl
        | inl (held, e) ↦ elim (Bool-cases held) [
          | inr n ↦
              rw (play_action, s, e, n)
                (record { row = _; only = refl; named = refl; success = refl })
          | inl y ↦ rw (play_action, s, e, y) (play_task-Reports world step _ st)
        ]
      ]
    ]

play_wait-Reports :
    (world : World) (wait : Option ℕ) (st : State)
    → is_some wait ≡ true
    → Reports "wait" (play_wait world wait st).ending (play_wait world wait st).results
unfolding play_wait
play_wait-Reports world none st h = absurd (ground (arith, h))
play_wait-Reports world (some secs) st h = record {
  row = _;
  only = refl;
  named = refl;
  success = refl;
}

validate_step-waits :
    (step : RunbookStep)
    → validate_step step ≡ ok tt
    → has_action step ≡ false
    → is_some step.wait_secs ≡ true
unfolding validate_step
validate_step-waits step h n = elim (Bool-cases (is_some step.wait_secs)) [
  | inl y ↦ y
  | inr w ↦ absurd (ground (arith, h, n, w))
]

-- A valid step.
pub play_step-Reports :
    (env : Env) (lib : TokenLibrary) (world : World) (auth : AuthPrincipal) (header : Header)
    (id : ℕ) (run_args : Value) (step : RunbookStep) (st : State)
    → validate_step step ≡ ok tt
    → Reports
        (label step)
        (play_step env lib world auth header id run_args step st).ending
        (play_step env lib world auth header id run_args step st).results
unfolding play_step
play_step-Reports env lib world auth header id run_args step st v =
    elim (Bool-cases (has_action step)) [
      | inr w ↦
          rw (play_step, w)
            (play_wait-Reports world step.wait_secs st (validate_step-waits step v w))
      | inl h ↦ elim (Option-cases (find_action step.action)) [
        | inl n ↦ rw (play_step, h, n) refl
        | inr (action, found) ↦
            rw (play_step, h, found)
              (play_action-Reports env lib world auth header id run_args step action st)
      ]
    ]
