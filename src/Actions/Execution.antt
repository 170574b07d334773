-- ===== src/Actions/Execution.antt =====
-- The execution of a command: crates/ppb-server/src/actions/executor.rs and pmp/cli/mod.rs, with the
-- errors of pmp/openuds/client.rs and the statements of commands/repo.rs that it makes. What PMP
-- answers to a command, the deployment adapter and the printing of JSON and uuids are parameters.
pub mod Commands
pub mod Truncation
mod Tests
use Prim.Native.String.{◌++◌ as string_append}
use phira_plus_backend.Prelude.{
  ℕ, ◌+◌, ℤ, String, Bool, true, false, not, ◌&&◌, Option, none, some, List, [], ◌∷◌, ◌==◌, nat_eq,
  string_eq, find, update_where, contains, is_some, length, leb, codes, utf8, decimal, byte_prefix,
  if◌then◌else◌, int_eq,
}
use mathlib.Core.Option
use phira_plus_backend.Json.{
  Value, object, string, boolean, end, field, get, get_string, get_i64, get_bool, number,
  insert_field, remove_field,
}
use phira_plus_backend.ErrorCode.{pmp_capability_missing, pmp_command_failed, pmp_unavailable}
use phira_plus_backend.ApiError.{ApiError, api_error, with_details}
use phira_plus_backend.Permissions
use phira_plus_backend.Auth.{PrincipalType, Session, revoke_all_for_user}
use phira_plus_backend.Actions.{
  Executor, open_uds, cli_execute, cli_raw, ActionDescriptor, find_action,
}

pub data OpenUdsError : Type 0 where
  unavailable : String → OpenUdsError
  command : String → String → String → OpenUdsError
  capability_not_supported : String → OpenUdsError
  timeout : ℕ → OpenUdsError
  auth_required protocol io : String → OpenUdsError

abbrev pub timed_out : ℕ → String
timed_out ms = string_append "openuds request timed out after " (string_append (decimal ms) "ms")

-- `to_string` of the error.
pub display : OpenUdsError → String
display (unavailable m) = string_append "openuds unavailable: " m
display (command name code message) = string_append "command " (
    string_append name (string_append " failed: " (string_append code (string_append " " message))))
display (capability_not_supported cap) = string_append "capability not supported: " cap
display (timeout ms) = timed_out ms
display (auth_required m) = string_append "openuds authentication required: " m
display (protocol m) = string_append "openuds protocol error: " m
display (io m) = string_append "openuds io error: " m

-- `From<OpenUdsError> for ApiError`.
pub to_api_error : OpenUdsError → ApiError
to_api_error (capability_not_supported cap) =
    with_details pmp_capability_missing (string_append "capability not supported: " cap)
      (object (field "capability" (string cap) end))
to_api_error (command name code message) = api_error pmp_command_failed "PMP command failed"
to_api_error (unavailable m) = api_error pmp_unavailable m
to_api_error (protocol m) = api_error pmp_unavailable m
to_api_error (io m) = api_error pmp_unavailable m
to_api_error (timeout ms) = api_error pmp_unavailable (timed_out ms)
to_api_error (auth_required m) = api_error pmp_unavailable m

pub data Reply : Type 0 where
  reply : Value → Reply
  refusal : OpenUdsError → Reply

-- The `Result<Value, String>` of an execution.
pub data Outcome : Type 0 where
  succeeded : Value → Outcome
  failed : String → Outcome

pub outcome_of : Reply → Outcome
unfolding display
outcome_of (reply v) = succeeded v
outcome_of (refusal e) = failed (display e)

-- What the server has around it. PMP answers to a command, its parameters and the timeout that
-- overrides the usual one.
pub record Env : Type 0 where
  pub pmp : String → Value → Option ℕ → Reply
  pub start_pmp : Value → Outcome
  pub stop_pmp : Outcome
  pub print : Value → String
  pub uuid_text : ℕ → String

-- `CommandAudit`, without the request's id, address and agent.
pub record CommandAudit : Type 0 where
  pub principal_type : PrincipalType
  pub actor_user_id : Option ℕ
  pub actor_session_id : ℕ
  pub action : String
  pub resource_type : String
  pub resource_id : String

-- `CommandTask`; `completion` says whether a caller waits.
pub record CommandTask : Type 0 where
  pub command_id : ℕ
  pub action : String
  pub actor : String
  pub resource_key : String
  pub args : Value
  pub args_redacted : Value
  pub completion : Bool
  pub audit : Option CommandAudit

-- A row of `command_runs`; the texts of a run that is queued are the columns' defaults.
pub record CommandRow : Type 0 where
  pub id : ℕ
  pub action : String
  pub actor : String
  pub resource_key : String
  pub command : String
  pub scope : String
  pub arguments_redacted : Value
  pub status : String
  pub result_summary : String
  pub error_code : String

-- A record of the audit log, with the parts of it that the execution chooses.
pub record AuditRow : Type 0 where
  pub action : String
  pub resource_id : String
  pub arguments : Value
  pub status : String
  pub error_code : String

-- The tables that commands read and write; a user is an id and a `phira_id`.
pub record ServerDb : Type 0 where
  pub permissions : Permissions.Db
  pub users : List (ℕ × ℤ)
  pub sessions : List Session
  pub runs : List CommandRow
  pub audits : List AuditRow

-- A command that goes to PMP.
abbrev pub Sent : Type 0
Sent = String × Value

abbrev pub player_target : List String
player_target =
    "room.kick" ∷ "room.force_move" ∷ "room.ban" ∷ "room.unban" ∷ "room.whitelist_add"
    ∷ "room.whitelist_remove" ∷ []

abbrev rename_field : Value → ℤ → Value
rename_field (object map) phira_id =
    object (remove_field "phira_id" (insert_field "user_id" (number phira_id) map))
rename_field args phira_id = args

pub normalize_openuds_args : String → Value → Value
normalize_openuds_args action args =
    if not (contains player_target action) then args else elim (get_i64 "phira_id" args) [
      | none ↦ args
      | some phira_id ↦ if is_some (get "user_id" args) then args else rename_field args phira_id
    ]

abbrev pub connections_command : Option Bool → String
connections_command (some true) = "connections on"
connections_command (some false) = "connections off"
connections_command none = "connections"

pub fixed_cli_command : String → Value → Option String
fixed_cli_command action args =
    if action == "server.connections"
    then some (connections_command (get_bool "enabled" args))
    else none

abbrev pub cli_params : String → Value
cli_params text = object (field "command" (string text) end)

-- A command to PMP and its outcome; `cli_execute` waits without limit.
unfoldable pub send : Env → String → Value → Option ℕ → Outcome × List Sent
unfolding outcome_of
send env name params limit = (outcome_of (env.pmp name params limit), (name, params) ∷ [])

unfoldable pub send_cli : Env → String → Outcome × List Sent
unfolding send
send_cli env text = send env "cli.execute" (cli_params text) (some 0)

pub run_fixed : Env → String → Option String → Outcome × List Sent
unfolding send_cli
run_fixed env action none = (failed (string_append "no fixed CLI mapping for action " action), [])
run_fixed env action (some cmd) = send_cli env cmd

abbrev pub or_empty_text : Option String → String
or_empty_text none = ""
or_empty_text (some s) = s

pub run_raw : Env → Value → Outcome × List Sent
unfolding send_cli
run_raw env args =
    let cmd = or_empty_text (get_string "command" args) in
    if cmd == "" then (failed "cli.execute requires args.command", []) else send_cli env cmd

abbrev pub revoked_value : Value
revoked_value = object (field "revoked" (boolean true) end)

-- `user.revoke_sessions`.
pub revoke_sessions : ℕ → Value → Option ServerDb → Outcome × Option ServerDb
revoke_sessions now args db = elim (get_i64 "user_id" args) [
  | none ↦ (failed "user.revoke_sessions requires args.user_id", db)
  | some phira_id ↦ elim db [
    | none ↦ (failed "database not configured", none)
    | some d ↦ elim (find (λ u. int_eq u.1 phira_id) d.users) [
      | none ↦ (failed "user not found", some d)
      | some u ↦ (
        succeeded revoked_value,
        some (record d { sessions = revoke_all_for_user now u.0 d.sessions }),
      )
    ]
  ]
]

-- `run_internal`.
pub run_internal : Env → ℕ → CommandTask → Option ServerDb → Outcome × Option ServerDb
unfolding revoke_sessions
run_internal env now task db =
    if task.action == "server.start"
    then (env.start_pmp task.args, db)
    else if task.action == "server.supervisor_stop"
    then (env.stop_pmp, db)
    else if task.action == "user.revoke_sessions"
    then revoke_sessions now task.args db
    else (failed (string_append "unsupported internal action: " task.action), db)

pub record Ran : Type 0 where
  pub outcome : Outcome
  pub sent : List Sent
  pub db : Option ServerDb

abbrev keeping : Option ServerDb → Outcome × List Sent → Ran
keeping db (outcome, sent) = record { outcome = outcome; sent = sent; db = db }

-- The `match` on the executor.
pub run_with : Executor → Env → ℕ → CommandTask → Option ServerDb → Ran
unfolding send fixed_cli_command run_fixed run_raw run_internal normalize_openuds_args
run_with open_uds env now task db =
    keeping db (send env task.action (normalize_openuds_args task.action task.args) none)
run_with cli_execute env now task db =
    keeping db (run_fixed env task.action (fixed_cli_command task.action task.args))
run_with cli_raw env now task db = keeping db (run_raw env task.args)
run_with Executor.internal env now task db =
    let (outcome, after) = run_internal env now task db in
    record { outcome = outcome; sent = []; db = after }

pub run : Env → ℕ → CommandTask → Option ServerDb → Ran
unfolding run_with
run env now task db = elim (find_action task.action) [
  | none ↦ record {
    outcome = failed (string_append "unknown action: " task.action);
    sent = [];
    db = db;
  }
  | some action ↦ run_with action.executor env now task db
]

-- `truncate`; `none` where the slice falls inside a character, which panics.
pub truncate : String → ℕ → Option String
truncate s max =
    if leb (length (utf8 (codes s))) max
    then some s
    else Option.map (λ p. string_append p "…") (byte_prefix max s)

pub mark_finished : ℕ → String → String → String → List CommandRow → List CommandRow
mark_finished id status summary error_code runs =
    update_where (λ r. r.id == id)
      (λ r. record r { status = status; result_summary = summary; error_code = error_code }) runs

pub with_audit : Option CommandAudit → Value → String → String → List AuditRow → List AuditRow
with_audit none args status error_code audits = audits
with_audit (some a) args status error_code audits =
    record {
      action = a.action;
      resource_id = a.resource_id;
      arguments = args;
      status = status;
      error_code = error_code;
    }
    ∷ audits

pub recorded : CommandTask → String → String → String → Option ServerDb → Option ServerDb
unfolding mark_finished with_audit
recorded task status summary error_code none = none
recorded task status summary error_code (some d) = some (record d {
  runs = mark_finished task.command_id status summary error_code d.runs;
  audits = with_audit task.audit task.args_redacted status error_code d.audits;
})

-- What an execution ends in: `none` is a panic, after which nothing is recorded and no caller told.
pub conclude : Env → CommandTask → Ran → Option Ran
unfolding recorded truncate
conclude env task ran = elim ran.outcome [
  | succeeded v ↦ some (record ran { db = recorded task "succeeded" (env.print v) "" ran.db })
  | failed e ↦ elim (truncate e 120) [
    | none ↦ none
    | some short ↦ some (record ran { db = recorded task "failed" "" short ran.db })
  ]
]

-- `execute`.
pub execute : Env → ℕ → CommandTask → Option ServerDb → Option Ran
unfolding run conclude
execute env now task db = conclude env task (run env now task db)
