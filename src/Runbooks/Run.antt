-- ===== src/Runbooks/Run.antt =====
-- A run of a runbook: `run` of crates/ppb-server/src/automation/routes.rs.
mod Gating
mod Reporting
mod Cancelling
mod Tests
use phira_plus_backend.Prelude.{
  ℕ, String, Bool, true, false, not, ◌&&◌, ◌||◌, Option, none, some, List, [], ◌∷◌, ◌++◌, ◌==◌,
  nat_eq, string_eq, update_where, leb, if◌then◌else◌,
}
use phira_plus_backend.Json.{Value, Fields, object, null, end, field, get_field, insert_field}
use phira_plus_backend.ErrorCode.{
  ErrorCode, long_running_action_requires_job, permission_denied, pmp_command_failed, invalid_json,
}
use phira_plus_backend.ApiError.{ApiError, Result, ok, err, ◌>>◌, ◌>>=◌, api_error, not_found}
use phira_plus_backend.Permissions.{has_permission}
use phira_plus_backend.Auth.{AuthPrincipal, TokenLibrary, Header, is_root}
use phira_plus_backend.Actions.{
  ActionDescriptor, find_action, is_job_only_action, resolve_queue_key, redact_args,
}
use phira_plus_backend.Actions.Execution.{
  Env, Outcome, succeeded, failed, CommandAudit, CommandTask, ServerDb,
}
use phira_plus_backend.Actions.Broker.{submit}
use phira_plus_backend.Actions.Routes.{principal_of, check_action_reauth, insert_queued}
use phira_plus_backend.Runbooks.{
  RunbookStep, RunbookDefinition, Runbook, RunbookRun, State, has_action, is_run, permitted,
  fetch_runbook, validate_steps, with_status,
}
use phira_plus_backend.Runbooks.Steps.{
  World, StepResult, Queued, StepEnd, went_on, broke, raised, Played, stopped, play_step,
}

-- What precedes and what follows in a run.
abbrev pub after : Played → Played → Played
after first rest = record {
  ending = rest.ending;
  results = first.results ++ rest.results;
  queued = first.queued ++ rest.queued;
  state = rest.state;
}

-- The loop.
pub play_steps :
    Env
    → TokenLibrary
    → World
    → AuthPrincipal
    → Header
    → ℕ
    → Value
    → List RunbookStep
    → State
    → Played
unfolding play_step
play_steps env lib world auth header id run_args [] st = stopped went_on [] st
play_steps env lib world auth header id run_args (step ∷ steps) st =
    let first = play_step env lib world auth header id run_args step st in
    elim first.ending [
      | went_on ↦ after first (play_steps env lib world auth header id run_args steps first.state)
      | broke ↦ first
      | raised e ↦ first
    ]

-- The body of the request.
pub data Body : Type 0 where
  empty_body malformed : Body
  json_body : Value → Body

pub body_args : Body → Result Value
body_args empty_body = ok null
body_args malformed = err (api_error invalid_json "invalid json request")
body_args (json_body args) = ok args

pub record RunbookExecutionResponse : Type 0 where
  pub run_id : ℕ
  pub status : String
  pub results : List StepResult

abbrev pub new_run : Env → AuthPrincipal → ℕ → Runbook → Value → RunbookRun
new_run env auth run_id runbook args = record {
  id = run_id;
  runbook_id = runbook.id;
  definition_snapshot = runbook.definition;
  arguments_redacted = args;
  actor = env.uuid_text auth.sub;
  status = "running";
}

abbrev pub status_text : Bool → String
status_text true = "succeeded"
status_text false = "failed"

-- The last statement of the handler.
pub close_run : ℕ → Bool → Played → Result RunbookExecutionResponse × State
close_run run_id is_ok p = (
  ok (record { run_id = run_id; status = status_text is_ok; results = p.results }),
  record p.state {
    runs = update_where (is_run run_id) (with_status (status_text is_ok)) p.state.runs;
  },
)

pub finish : ℕ → Played → Result RunbookExecutionResponse × State
unfolding close_run
finish run_id p = elim p.ending [
  | went_on ↦ close_run run_id true p
  | broke ↦ close_run run_id false p
  | raised e ↦ (err e, p.state)
]

-- What `run` does before its row is inserted.
pub startable : AuthPrincipal → ℕ → Body → State → Result (Runbook × Value)
unfolding permitted fetch_runbook validate_steps body_args
startable auth id body st =
    permitted auth "automation:execute" st
    >> (fetch_runbook id st >>= λ runbook.
        validate_steps runbook.definition.steps >> (body_args body >>= λ args. ok (runbook, args)))

-- The run of the loop that `run` starts.
pub played :
    Env → TokenLibrary → World → AuthPrincipal → Header → ℕ → Runbook → Value → State → Played
unfolding play_steps
played env lib world auth header run_id runbook args st =
    play_steps env lib world auth header runbook.id args runbook.definition.steps
      (record st { runs = new_run env auth run_id runbook args ∷ st.runs })

pub run :
    Env
    → TokenLibrary
    → World
    → AuthPrincipal
    → Header
    → ℕ
    → ℕ
    → Body
    → State
    → Result RunbookExecutionResponse × State
unfolding startable played finish
run env lib world auth header run_id id body st = elim (startable auth id body st) [
  | err e ↦ (err e, st)
  | ok (runbook, args) ↦ finish run_id (played env lib world auth header run_id runbook args st)
]
