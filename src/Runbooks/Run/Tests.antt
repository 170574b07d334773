-- ===== src/Runbooks/Run/Tests.antt =====
-- Root runs a runbook that pauses, bans a player and then reads the server's connections.
use phira_plus_backend.Prelude.{
  ◌≡◌, refl, true, some, none, List, [], ◌∷◌, ◌⊎◌, ◌==◌, string_eq, nat_eq, every, All, replace,
  if◌then◌else◌, pos, codes,
}
use phira_plus_backend.Json.{object, string, number, field, end, null}
use phira_plus_backend.ApiError.{ok, has_infix}
use phira_plus_backend.Permissions.{has_permission, require}
use phira_plus_backend.Auth.{
  root, panel, AuthPrincipal, Header, ReauthClaims, TokenLibrary, text, absent,
}
use phira_plus_backend.Auth.Handlers.{check_reauth_header}
use phira_plus_backend.Actions.{find_action, resolve_queue_key, is_job_only_action}
use phira_plus_backend.Actions.Execution.{Env, reply, succeeded, failed}
use phira_plus_backend.Actions.Broker.{submit}
use phira_plus_backend.Actions.Routes.{check_action_reauth}
use phira_plus_backend.Runbooks.{Runbook, RunbookStep, State}
use phira_plus_backend.Runbooks.Steps.{World, waited, step_done}
use phira_plus_backend.Runbooks.Steps.Gates.{IsGated}
use phira_plus_backend.Runbooks.Run.{empty_body, RunbookExecutionResponse, played, run, new_run}
use phira_plus_backend.Runbooks.Run.Gating.{IsConsoleSafe, played-IsGated, played-IsConsoleSafe}
use phira_plus_backend.Runbooks.Run.Reporting.{IsReport, run-IsReport}
use phira_plus_backend.Runbooks.Run.Cancelling.{has_answer, run-has_answer}

abbrev env : Env
env = record {
  pmp = λ name params limit. reply (string "done");
  start_pmp = λ args. failed "no deployment";
  stop_pmp = failed "no deployment";
  print = λ v. "42";
  uuid_text = λ id. "id";
}

abbrev reauth : ReauthClaims
reauth = record {
  purpose = "reauth";
  sub = 0;
  sid = 7;
  principal_type = root;
  client_type = panel;
  risk = "critical";
  iat = 100;
  exp = 400;
}

abbrev lib : TokenLibrary
lib = record {
  sign_access = λ c. none;
  read_access = λ now token. none;
  sign_reauth = λ c. none;
  read_reauth = λ now token. if token == "reauth-jwt" then some reauth else none;
}

-- The executor succeeds; nobody else does anything.
abbrev world : World
world = record {
  complete = λ task st. (some (succeeded (string "done")), st);
  sleep = λ secs st. st;
  fresh = λ st. 9;
}

abbrev auth : AuthPrincipal
auth = record { sub = 0; sid = 7; principal_type = root; client_type = panel }

abbrev ban : RunbookStep
ban = record {
  action = "player.ban";
  with_args = object (field "user_id" (number (pos 42)) end);
  wait_secs = none;
}

abbrev connections : RunbookStep
connections = record { action = "server.connections"; with_args = null; wait_secs = none }

abbrev pause : RunbookStep
pause = record { action = ""; with_args = null; wait_secs = some 5 }

abbrev runbook_of : List RunbookStep → Runbook
runbook_of steps = record {
  id = 3;
  name = codes "night";
  description = "";
  definition = record { name = "night"; description = ""; args = null; steps = steps };
  created_by = some 5;
  updated_by = some 5;
}

abbrev night : Runbook
night = runbook_of (pause ∷ ban ∷ connections ∷ [])

abbrev direct : Runbook
direct = runbook_of (ban ∷ [])

abbrev server_of : Runbook → State
server_of runbook = record {
  now = 120;
  db = record {
    permissions = record { groups = []; members = []; grants = []; users = [] };
    users = (5, pos 42) ∷ [];
    sessions = [];
    runs = [];
    audits = [];
  };
  workers = [];
  runbooks = runbook ∷ [];
  runs = [];
}

abbrev header : Header
header = text "reauth-jwt"

played-IsGated_example :
    All
      (IsGated lib auth header)
      (played env lib world auth header 1 night null (server_of night)).queued
played-IsGated_example = played-IsGated env lib world auth header 1 night null (server_of night)

played-IsConsoleSafe_example :
    All
      (IsConsoleSafe env lib auth header)
      (played env lib world auth header 1 night null (server_of night)).queued
played-IsConsoleSafe_example =
    played-IsConsoleSafe env lib world auth header 1 night null (server_of night)

abbrev response : RunbookExecutionResponse
response = record {
  run_id = 1;
  status = "succeeded";
  results =
      waited 5
      ∷ step_done "player.ban" (string "done")
      ∷ step_done "server.connections" (string "done")
      ∷ [];
}

answered : (run env lib world auth header 1 3 empty_body (server_of night)).0 ≡ ok response
unfolding run require find_action is_job_only_action has_permission check_action_reauth
    check_reauth_header submit resolve_queue_key has_infix replace
answered = refl

run-IsReport_example : IsReport 3 (server_of night) response
run-IsReport_example =
    run-IsReport env lib world auth header 1 3 empty_body (server_of night) response answered

run-has_answer_example :
    (every
        (has_answer 1 response)
        (run env lib world auth header 1 3 empty_body (server_of night)).1.runs
      ≡ true)
    × ((response.status ≡ "succeeded") ⊎ (response.status ≡ "failed"))
run-has_answer_example =
    run-has_answer env lib world auth header 1 3 empty_body (server_of night) response answered

-- No reauthentication is sent: the run stays as it was inserted.
left_running :
    (run env lib world auth absent 1 3 empty_body (server_of direct)).1.runs
    ≡ new_run env auth 1 direct null ∷ []
unfolding run require find_action is_job_only_action has_permission check_action_reauth
    check_reauth_header
left_running = refl
