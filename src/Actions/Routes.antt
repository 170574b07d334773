-- ===== src/Actions/Routes.antt =====
-- The handlers that execute actions and raw commands: crates/ppb-server/src/actions/routes.rs, with
-- the host of a room as rooms/service.rs reads it. The fresh id of a command is an argument; the
-- addresses and agents of the audit log are left out, and so are the manifest and the listing.
pub mod Authorization
pub mod Console
mod Tests
use phira_plus_backend.Prelude.{
  ℕ, ℤ, String, Bool, true, false, not, ◌&&◌, ◌||◌, Option, none, some, List, [], ◌∷◌, ◌==◌, nat_eq,
  string_eq, find, to_i32, int_eq, if◌then◌else◌,
}
use Prim.Native.String.{◌++◌ as string_append}
use mathlib.Core.Option
use phira_plus_backend.Json.{Value, object, string, end, field, get_string, get_i64}
use phira_plus_backend.ErrorCode.{
  long_running_action_requires_job, resource_conflict, room_id_required, internal_error,
  pmp_unavailable,
}
use phira_plus_backend.ApiError.{
  ApiError, Result, ok, err, ◌>>=◌, ◌>>◌, api_error, denied, not_found,
}
use phira_plus_backend.Permissions
use phira_plus_backend.Permissions.{has_permission, require}
use phira_plus_backend.RateLimit
use phira_plus_backend.RateLimit.{RateLimiter}
use phira_plus_backend.Jobs.{ReauthRisk}
use phira_plus_backend.Auth.{
  PrincipalType, user, root, is_root, AuthPrincipal, TokenLibrary, Header,
}
use phira_plus_backend.Auth.Handlers.{check_reauth_header}
use phira_plus_backend.Actions.{
  Risk, critical, ActionDescriptor, find_action, is_job_only_action, resolve_queue_key, redact_args,
}
use phira_plus_backend.Actions.Execution.{
  Env, reply, refusal, to_api_error, Outcome, succeeded, failed, CommandAudit, CommandTask,
  CommandRow, AuditRow, ServerDb, Sent, send_cli, mark_finished,
}
use phira_plus_backend.Actions.Broker.{Workers, submit}

pub record Server : Type 0 where
  pub db : Option ServerDb
  pub workers : Workers

-- The resolver's view of a principal and of the database.
abbrev pub principal_of : AuthPrincipal → Permissions.Principal
principal_of auth = elim auth.principal_type [
  | root ↦ Permissions.Principal.root
  | user ↦ Permissions.Principal.user auth.sub
]

abbrev pub permissions_db : Option ServerDb → Option Permissions.Db
permissions_db none = none
permissions_db (some d) = some d.permissions

pub require_db : Option ServerDb → Result ServerDb
require_db none = err (api_error internal_error "database not configured")
require_db (some d) = ok d

-- The lookup of the action and the two refusals that follow it.
pub admit : String → Result ActionDescriptor
admit action_id = elim (find_action action_id) [
  | none ↦ err (not_found "action")
  | some action ↦
      if is_job_only_action action.id
      then err
          (api_error long_running_action_requires_job "long-running action requires the Job API")
      else if action.id == "pmp.cli.execute"
      then err
          (api_error resource_conflict "raw PMP CLI requires the dedicated CommandRun endpoint")
      else ok action
]

abbrev or_narrow : Option ℤ → Option ℤ → Option ℤ
or_narrow (some n) other = some (to_i32 n)
or_narrow none (some n) = some (to_i32 n)
or_narrow none none = none

-- What `RoomService::host_id` reads in the answer to `room.info`.
pub host_of : Value → Option ℤ
host_of info = or_narrow (get_i64 "host_id" info) (get_i64 "host" info)

abbrev pub room_info : Env → String → Result (Option ℤ)
room_info env room_id =
    elim (env.pmp "room.info" (object (field "room_id" (string room_id) end)) none) [
      | reply info ↦ ok (host_of info)
      | refusal e ↦ err (to_api_error e)
    ]

abbrev pub or_error {ℓ} : {A : Type ℓ} → ApiError → Option A → Result A
or_error e none = err e
or_error e (some a) = ok a

abbrev pub is_host : Option ℤ → ℤ → Bool
is_host none phira_id = false
is_host (some host) phira_id = int_eq host (to_i32 phira_id)

pub verify_real_host : Env → AuthPrincipal → Value → Option ServerDb → Result Bool
unfolding host_of require_db
verify_real_host env auth args db = do
  room_id ←
      or_error (api_error room_id_required "room_id required for host action")
        (get_string "room_id" args)
  d ← require_db db
  u ← or_error (not_found "user") (find (λ u. u.0 == auth.sub) d.users)
  host ← room_info env room_id
  ok (is_host host u.1)

pub authorize : Env → AuthPrincipal → ActionDescriptor → Value → Option ServerDb → Result (Unit {0})
unfolding verify_real_host
authorize env auth action args db = do
  held ← has_permission (permissions_db db) (principal_of auth) action.permission
  if action.host_allowed
      then (verify_real_host env auth args db >>= λ host.
          if not held && not host then err denied else ok tt)
      else (if not held then err denied else ok tt)

abbrev pub is_critical : Risk → Bool
is_critical critical = true
is_critical _ = false

-- `if action.risk >= Risk::Critical`.
abbrev pub reauth_risk : Risk → ReauthRisk
reauth_risk risk = if is_critical risk then ReauthRisk.critical else ReauthRisk.high

unfoldable pub check_action_reauth :
    TokenLibrary → ℕ → AuthPrincipal → Header → ActionDescriptor → Result (Unit {0})
check_action_reauth lib now auth header action =
    if action.reauth
    then check_reauth_header lib now auth header (reauth_risk action.risk)
    else ok tt

-- Everything before the command is recorded.
pub admitted :
    Env
    → TokenLibrary
    → ℕ
    → AuthPrincipal
    → Header
    → String
    → Value
    → Option ServerDb
    → Result (ActionDescriptor × ServerDb)
unfolding admit authorize check_action_reauth require_db
admitted env lib now auth header action_id args db = do
  action ← admit action_id
  authorize env auth action args db
  check_action_reauth lib now auth header action
  d ← require_db db
  ok (action, d)

pub audit_of : AuthPrincipal → ActionDescriptor → String → Option CommandAudit
audit_of auth action queue_key = if action.audit then some audit else none
  where
    audit : CommandAudit
    audit = record {
      principal_type = auth.principal_type;
      actor_user_id = if is_root auth then none else some auth.sub;
      actor_session_id = auth.sid;
      action = action.id;
      resource_type = "action";
      resource_id = queue_key;
    }

pub task_of : Env → AuthPrincipal → ActionDescriptor → Value → ℕ → CommandTask
unfolding audit_of
task_of env auth action args command_id =
    let queue_key = resolve_queue_key env.print action args in
    record {
      command_id = command_id;
      action = action.id;
      actor = env.uuid_text auth.sub;
      resource_key = queue_key;
      args = args;
      args_redacted = redact_args args;
      completion = not action.long_running;
      audit = audit_of auth action queue_key;
    }

-- `command_repo::insert_queued`; the other columns have their defaults.
pub insert_queued : CommandTask → List CommandRow → List CommandRow
insert_queued task runs =
    record {
      id = task.command_id;
      action = task.action;
      actor = task.actor;
      resource_key = task.resource_key;
      command = "";
      scope = "personal";
      arguments_redacted = task.args_redacted;
      status = "queued";
      result_summary = "";
      error_code = "";
    }
    ∷ runs

-- `execute_action` up to the submission, which the row of the command precedes.
pub execute_action :
    Env
    → TokenLibrary
    → ℕ
    → ℕ
    → AuthPrincipal
    → Header
    → String
    → Value
    → Server
    → Result CommandTask × Server
unfolding admitted task_of insert_queued
execute_action env lib now command_id auth header action_id args server =
    elim (admitted env lib now auth header action_id args server.db) [
      | err e ↦ (err e, server)
      | ok (action, d) ↦
          let task = task_of env auth action args command_id in
          let (sent, workers) = submit task server.workers in
          (
            (sent >> ok task),
            record { db = some (record d { runs = insert_queued task d.runs }); workers = workers },
          )
    ]

-- What the caller of a command that does not run long is told: within 30 seconds its outcome comes,
-- or the sender of it is dropped.
pub data Completion : Type 0 where
  completed : Outcome → Completion
  dropped elapsed : Completion

pub answer : Completion → Result Value
answer (completed (succeeded v)) = ok v
answer (completed (failed e)) = err (api_error pmp_unavailable e)
answer dropped = err (api_error pmp_unavailable "executor dropped")
answer elapsed = err (api_error pmp_unavailable "command timed out")

-- `output_string`.
pub output_string : (Value → String) → Value → String
output_string print (string s) = s
output_string print v = print v

-- `CommandRun`, without the time.
pub record CommandRun : Type 0 where
  pub command_id : ℕ
  pub command : String
  pub action : String
  pub status : String
  pub output : Option String
  pub error : Option String
  pub principal : String
  pub scope : String

pub record CommandAnswer : Type 0 where
  pub result : Result CommandRun
  pub sent : List Sent
  pub limiter : RateLimiter
  pub db : Option ServerDb

-- `insert_console_run`.
pub insert_console_run : ℕ → String → String → String → List CommandRow → List CommandRow
insert_console_run id actor text scope runs =
    record {
      id = id;
      action = "pmp.cli.execute";
      actor = actor;
      resource_key = "server";
      command = text;
      scope = scope;
      arguments_redacted = object end;
      status = "queued";
      result_summary = "";
      error_code = "";
    }
    ∷ runs

abbrev status_of : Outcome → String
status_of (succeeded v) = "succeeded"
status_of (failed e) = "failed"

abbrev output_of : (Value → String) → Outcome → Option String
output_of print (succeeded v) = some (output_string print v)
output_of print (failed e) = none

abbrev error_of : Outcome → Option String
error_of (succeeded v) = none
error_of (failed e) = some e

abbrev or_blank : Option String → String
or_blank none = ""
or_blank (some s) = s

abbrev audit_error : Outcome → String
audit_error (succeeded v) = ""
audit_error (failed e) = "cli_execute_error"

-- The part of `execute_command` after its checks.
pub run_command : Env → AuthPrincipal → ℕ → String → RateLimiter → ServerDb → CommandAnswer
unfolding send_cli insert_console_run output_string
run_command env auth command_id text limiter d =
    let actor = env.uuid_text auth.sub in
    let (outcome, sent) = send_cli env text in
    record {
      result = ok (record {
        command_id = command_id;
        command = text;
        action = "pmp.cli.execute";
        status = status_of outcome;
        output = output_of env.print outcome;
        error = error_of outcome;
        principal = actor;
        scope = "server";
      });
      sent = sent;
      limiter = limiter;
      db = some (record d {
        runs =
            mark_finished command_id (status_of outcome) (or_blank (output_of env.print outcome))
              (or_blank (error_of outcome))
              (insert_console_run command_id actor text "server" d.runs);
        audits =
            record {
              action = "pmp.cli.execute";
              resource_id = "console";
              arguments = object (field "command" (string "[REDACTED input]") end);
              status = status_of outcome;
              error_code = audit_error outcome;
            }
            ∷ d.audits;
      });
    }

abbrev pub raw_cli_key : Env → AuthPrincipal → String
raw_cli_key env auth = string_append "raw-cli:" (env.uuid_text auth.sub)

abbrev pub refused : ApiError → RateLimiter → Option ServerDb → CommandAnswer
refused e limiter db = record { result = err e; sent = []; limiter = limiter; db = db }

-- `execute_command`.
pub execute_command :
    Env
    → TokenLibrary
    → ℕ
    → ℕ
    → ℕ
    → AuthPrincipal
    → Header
    → String
    → RateLimiter
    → Option ServerDb
    → CommandAnswer
unfolding require_db run_command
execute_command env lib now limit command_id auth header text limiter db =
    elim (require (permissions_db db) (principal_of auth) "pmp:cli") [
      | err e ↦ refused e limiter db
      | ok u ↦
          let (within, counted) = RateLimit.check limiter now (raw_cli_key env auth) limit in
          elim (within
            >> check_reauth_header lib now auth header ReauthRisk.high
            >> require_db db) [
              | err e ↦ refused e counted db
              | ok d ↦ run_command env auth command_id text counted d
            ]
    ]
