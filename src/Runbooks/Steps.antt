-- ===== src/Runbooks/Steps.antt =====
-- One step of a run: the body of the loop of `run` in crates/ppb-server/src/automation/routes.rs.
-- What happens to the server while the handler awaits a command's completion or sleeps, the work of
-- the executor and of all other handlers, is a parameter; so are the fresh ids of the commands.
pub mod Gates
pub mod Endings
mod Arguments
mod Tests
use phira_plus_backend.Prelude.{
  ℕ, String, Bool, true, false, not, ◌&&◌, ◌||◌, Option, none, some, List, [], ◌∷◌, ◌++◌, ◌==◌,
  nat_eq, string_eq, update_where, leb, if◌then◌else◌,
}
use phira_plus_backend.Json.{Value, Fields, object, null, end, field, get_field, insert_field}
use phira_plus_backend.ErrorCode.{
  ErrorCode, long_running_action_requires_job, permission_denied, pmp_command_failed, invalid_json,
}
use phira_plus_backend.ApiError.{ApiError, Result, ok, err, ◌>>◌, ◌>>=◌, api_error, not_found}
use phira_plus_backend.Permissions.{has_permission}
use phira_plus_backend.Auth.{AuthPrincipal, TokenLibrary, Header, is_root}
use phira_plus_backend.Actions.{
  ActionDescriptor, find_action, is_job_only_action, resolve_queue_key, redact_args,
}
use phira_plus_backend.Actions.Execution.{
  Env, Outcome, succeeded, failed, CommandAudit, CommandTask, ServerDb,
}
use phira_plus_backend.Actions.Broker.{submit}
use phira_plus_backend.Actions.Routes.{principal_of, check_action_reauth, insert_queued}
use phira_plus_backend.Runbooks.{
  RunbookStep, RunbookDefinition, Runbook, RunbookRun, State, has_action, is_run, permitted,
  fetch_runbook, validate_steps, with_status,
}

-- The server after a wait; the outcome of a command is `none` where its sender was dropped.
pub record World : Type 0 where
  pub complete : CommandTask → State → Option Outcome × State
  pub sleep : ℕ → State → State
  pub fresh : State → ℕ

-- `AutomationStepResult`.
pub record StepResult : Type 0 where
  pub step : String
  pub is_ok : Bool
  pub result : Option Value
  pub error : Option (ErrorCode × String)
  pub wait_secs : Option ℕ

abbrev pub waited : ℕ → StepResult
waited secs = record {
  step = "wait";
  is_ok = true;
  result = none;
  error = none;
  wait_secs = some secs;
}

abbrev pub step_failed : String → ErrorCode → String → StepResult
step_failed name code message = record {
  step = name;
  is_ok = false;
  result = none;
  error = some (code, message);
  wait_secs = none;
}

abbrev pub step_done : String → Value → StepResult
step_done name v = record {
  step = name;
  is_ok = true;
  result = some v;
  error = none;
  wait_secs = none;
}

-- A command that was queued, with the server as the step found it.
pub record Queued : Type 0 where
  pub state : State
  pub task : CommandTask

-- How a step leaves the loop: on to the next one, by `break`, or by `?`.
pub data StepEnd : Type 0 where
  went_on broke : StepEnd
  raised : ApiError → StepEnd

pub record Played : Type 0 where
  pub ending : StepEnd
  pub results : List StepResult
  pub queued : List Queued
  pub state : State

-- `entry(k).or_insert(v)` of the run's arguments, one after the other.
pub or_insert_all : Fields → Fields → Fields
or_insert_all map end = map
or_insert_all map (field k v run) = elim (get_field k map) [
  | none ↦ or_insert_all (insert_field k v map) run
  | some w ↦ or_insert_all map run
]

pub merge_args : Value → Value → Value
unfolding or_insert_all
merge_args (object map) (object run) = object (or_insert_all map run)
merge_args args run = args

abbrev pub min_hour : ℕ → ℕ
min_hour secs = if leb secs 3600 then secs else 3600

pub sleep_for : World → Option ℕ → State → State
sleep_for world none st = st
sleep_for world (some secs) st = world.sleep (min_hour secs) st

pub step_audit : Env → AuthPrincipal → ActionDescriptor → ℕ → Option CommandAudit
step_audit env auth action id = if action.audit then some audit else none
  where
    audit : CommandAudit
    audit = record {
      principal_type = auth.principal_type;
      actor_user_id = if is_root auth then none else some auth.sub;
      actor_session_id = auth.sid;
      action = action.id;
      resource_type = "runbook";
      resource_id = env.uuid_text id;
    }

pub step_task : Env → AuthPrincipal → ActionDescriptor → ℕ → ℕ → Value → CommandTask
unfolding step_audit
step_task env auth action id command_id args = record {
  command_id = command_id;
  action = action.id;
  actor = env.uuid_text auth.sub;
  resource_key = resolve_queue_key env.print action args;
  args = args;
  args_redacted = redact_args args;
  completion = true;
  audit = step_audit env auth action id;
}

-- The `match` on the completion, and the sleep that follows a success.
pub settle : World → RunbookStep → Queued → Option Outcome × State → Played
unfolding sleep_for
settle world step q (some (succeeded v), st) = record {
  ending = went_on;
  results = step_done step.action v ∷ [];
  queued = q ∷ [];
  state = sleep_for world step.wait_secs st;
}
settle world step q (_, st) = record {
  ending = broke;
  results = step_failed step.action pmp_command_failed "command failed" ∷ [];
  queued = q ∷ [];
  state = st;
}

abbrev pub stored : CommandTask → State → State
stored task st = record st {
  db = record st.db { runs = insert_queued task st.db.runs };
  workers = (submit task st.workers).1;
}

-- The command is recorded, submitted and awaited.
pub play_task : World → RunbookStep → CommandTask → State → Played
unfolding settle
play_task world step task st = elim (submit task st.workers).0 [
  | err e ↦ record { ending = raised e; results = []; queued = []; state = stored task st }
  | ok done ↦
      settle world step (record { state = st; task = task }) (world.complete task (stored task st))
]

abbrev pub stopped : StepEnd → List StepResult → State → Played
stopped ending results st = record { ending = ending; results = results; queued = []; state = st }

-- The permission of a step, and its reauthentication.
unfoldable pub cleared :
    TokenLibrary → AuthPrincipal → Header → ActionDescriptor → State → Result Bool
cleared lib auth header action st = do
  held ← has_permission (some st.db.permissions) (principal_of auth) action.permission
  if held then check_action_reauth lib st.now auth header action >> ok true else ok false

pub play_action :
    Env
    → TokenLibrary
    → World
    → AuthPrincipal
    → Header
    → ℕ
    → Value
    → RunbookStep
    → ActionDescriptor
    → State
    → Played
unfolding cleared merge_args step_task play_task
play_action env lib world auth header id run_args step action st =
    if action.long_running || is_job_only_action action.id
    then stopped broke
        (step_failed step.action long_running_action_requires_job
            "long-running action requires Job execution"
          ∷ [])
        st
    else elim (cleared lib auth header action st) [
      | err e ↦ stopped (raised e) [] st
      | ok held ↦
          if held
          then play_task world step
              (step_task env auth action id (world.fresh st) (merge_args step.with_args run_args))
              st
          else stopped broke (step_failed step.action permission_denied "permission denied" ∷ []) st
    ]

-- A step without an action.
pub play_wait : World → Option ℕ → State → Played
unfolding sleep_for
play_wait world none st = stopped went_on [] st
play_wait world (some secs) st = stopped went_on (waited secs ∷ []) (sleep_for world (some secs) st)

unfoldable pub play_step :
    Env → TokenLibrary → World → AuthPrincipal → Header → ℕ → Value → RunbookStep → State → Played
unfolding play_action play_wait
play_step env lib world auth header id run_args step st =
    if not (has_action step)
    then play_wait world step.wait_secs st
    else elim (find_action step.action) [
      | none ↦ stopped (raised (not_found "action")) [] st
      | some action ↦ play_action env lib world auth header id run_args step action st
    ]
