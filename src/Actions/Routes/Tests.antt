-- ===== src/Actions/Routes/Tests.antt =====
-- Root, reauthenticated, bans a player, is refused a kick, and runs a console command.
use phira_plus_backend.Prelude.{
  ◌≡◌, refl, true, false, some, none, List, [], ◌∷◌, ◌==◌, string_eq, nat_eq, if◌then◌else◌, pos,
}
use phira_plus_backend.Json.{Value, object, string, number, field, end}
use phira_plus_backend.ApiError.{ok}
use phira_plus_backend.Permissions.{has_permission, require}
use phira_plus_backend.RateLimit
use phira_plus_backend.Auth.{root, panel, AuthPrincipal, ReauthClaims, TokenLibrary, text}
use phira_plus_backend.Auth.Handlers.{check_reauth_header}
use phira_plus_backend.Actions.{
  descriptor, ActionDescriptor, open_uds, medium, find_action, resolve_queue_key,
  is_job_only_action, redact_args,
}
use phira_plus_backend.Actions.Execution.{
  Env, reply, failed, CommandTask, ServerDb, Sent, cli_params, send_cli,
}
use phira_plus_backend.Actions.Broker.{submit}
use phira_plus_backend.Actions.Routes.{
  Server, admit, principal_of, execute_action, execute_command, task_of,
}
use phira_plus_backend.Actions.Routes.Authorization.{IsAuthorized, execute_action-IsAuthorized}
use phira_plus_backend.Actions.Routes.Console.{IsConsoleAllowed, execute_command-gated}

abbrev env : Env
env = record {
  pmp = λ name params limit. reply (string "done");
  start_pmp = λ args. failed "no deployment";
  stop_pmp = failed "no deployment";
  print = λ v. "42";
  uuid_text = λ id. "id";
}

abbrev reauth : ReauthClaims
reauth = record {
  purpose = "reauth";
  sub = 0;
  sid = 7;
  principal_type = root;
  client_type = panel;
  risk = "critical";
  iat = 100;
  exp = 400;
}

abbrev lib : TokenLibrary
lib = record {
  sign_access = λ c. none;
  read_access = λ now token. none;
  sign_reauth = λ c. none;
  read_reauth = λ now token. if token == "reauth-jwt" then some reauth else none;
}

abbrev auth : AuthPrincipal
auth = record { sub = 0; sid = 7; principal_type = root; client_type = panel }

abbrev db : ServerDb
db = record {
  permissions = record { groups = []; members = []; grants = []; users = [] };
  users = (5, pos 42) ∷ [];
  sessions = [];
  runs = [];
  audits = [];
}

abbrev server : Server
server = record { db = some db; workers = [] }

abbrev target : Value
target = object (field "user_id" (number (pos 42)) end)

abbrev ban : ActionDescriptor
ban = record {
  id = "player.ban";
  permission = "user:ban";
  executor = open_uds;
  risk = phira_plus_backend.Actions.high;
  audit = true;
  reauth = true;
  host_allowed = false;
  queue_key = "user:{user_id}";
  long_running = false;
}

abbrev task : CommandTask
task = task_of env auth ban target 9

ban_queued :
    (execute_action env lib 120 9 auth (text "reauth-jwt") "player.ban" target server).0 ≡ ok task
unfolding execute_action find_action is_job_only_action has_permission check_reauth_header submit
ban_queued = refl

execute_action-IsAuthorized_example :
    IsAuthorized env lib 120 auth (text "reauth-jwt") "player.ban" target db task
execute_action-IsAuthorized_example =
    execute_action-IsAuthorized env lib 120 9 auth (text "reauth-jwt") "player.ban" target server db
      task refl ban_queued

abbrev kick : ActionDescriptor
kick = descriptor "room.kick" "room:kick" open_uds medium true false true "room:{room_id}" false

abbrev room : Value
room = object (field "room_id" (string "ABC") end)

kick_admitted : admit "room.kick" ≡ ok kick
unfolding admit find_action is_job_only_action
kick_admitted = refl

root_may_kick : has_permission (some db.permissions) (principal_of auth) "room:kick" ≡ ok true
unfolding has_permission
root_may_kick = refl

abbrev status_sent : List Sent
status_sent = ("cli.execute", cli_params "status") ∷ []

console_sent :
    (execute_command env lib 120 10 9 auth (text "reauth-jwt") "status" [] (some db)).sent
    ≡ status_sent
unfolding execute_command require RateLimit.check check_reauth_header send_cli
console_sent = refl

execute_command-gated_example :
    IsConsoleAllowed env lib 120 10 auth (text "reauth-jwt") [] (some db)
    × (status_sent ≡ ("cli.execute", cli_params "status") ∷ [])
execute_command-gated_example =
    execute_command-gated env lib 120 10 9 auth (text "reauth-jwt") "status" [] (some db)
      ("cli.execute", cli_params "status") [] console_sent
