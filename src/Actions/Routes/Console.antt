-- ===== src/Actions/Routes/Console.antt =====
-- What reaches the PMP console: crates/ppb-server/src/actions/routes.rs and executor.rs together.
use phira_plus_backend.Prelude.{
  ℕ, ◌≡◌, ◌∙◌, refl, sym, ap, String, true, Option, none, some, List, [], ◌∷◌, ◌==◌, nat_eq,
  string_eq, every, find, arith, inl, inr,
}
use phira_plus_backend.Json.{Value, get_string}
use phira_plus_backend.ApiError.{ok, err, ◌>>◌, Result-cases, then_ok, not_found}
use phira_plus_backend.Permissions.{has_permission, require}
use phira_plus_backend.RateLimit
use phira_plus_backend.RateLimit.{RateLimiter}
use phira_plus_backend.Jobs.{ReauthRisk}
use phira_plus_backend.Auth.{AuthPrincipal, TokenLibrary, Header}
use phira_plus_backend.Auth.Handlers.{check_reauth_header}
use phira_plus_backend.Auth.Handlers.Reauth.{
  IsReauthenticated, check_reauth_header-IsReauthenticated,
}
use phira_plus_backend.Actions.{ActionDescriptor, find_action}
use phira_plus_backend.Actions.Registry.{find_action-is_disciplined}
use phira_plus_backend.Actions.Execution.{
  Env, Sent, CommandTask, ServerDb, cli_params, send, send_cli, run,
}
use phira_plus_backend.Actions.Execution.Commands.{is_fixed, run-is_fixed}
use phira_plus_backend.Actions.Routes.{
  Server, principal_of, permissions_db, require_db, admit, authorize, verify_real_host, admitted,
  execute_action, raw_cli_key, run_command, execute_command,
}
use phira_plus_backend.Actions.Routes.Authorization.{execute_action-IsAuthorized}

-- Whatever action and arguments a caller of execute_action sends, the command that it queues, with
-- a database, sends no text to the PMP console when it is executed but "connections", "connections
-- on" and "connections off".
pub execute_action-run-is_fixed :
    (env : Env) (lib : TokenLibrary) (now later command_id : ℕ) (auth : AuthPrincipal)
    (header : Header) (action_id : String) (args : Value) (server : Server) (d : ServerDb)
    (task : CommandTask) (db : Option ServerDb)
    → server.db ≡ some d
    → (execute_action env lib now command_id auth header action_id args server).0 ≡ ok task
    → every is_fixed (run env later task db).sent ≡ true
execute_action-run-is_fixed env lib now later command_id auth header action_id args server d task db
      c h =
    let why =
      execute_action-IsAuthorized env lib now command_id auth header action_id args server d task c
        h in
    let (same, _) = find_action-is_disciplined action_id why.action why.found in
    let found : find_action task.action ≡ some why.action =
      ap find_action (why.named ∙ same) ∙ why.found in
    run-is_fixed env later task db why.action found why.not_raw

admitted-no_user :
    (env : Env) (lib : TokenLibrary) (now : ℕ) (auth : AuthPrincipal) (header : Header)
    (action_id room_id : String) (args : Value) (d : ServerDb) (action : ActionDescriptor)
    → admit action_id ≡ ok action
    → action.host_allowed ≡ true
    → has_permission (some d.permissions) (principal_of auth) action.permission ≡ ok true
    → get_string "room_id" args ≡ some room_id
    → find (λ u. u.0 == auth.sub) d.users ≡ none
    → admitted env lib now auth header action_id args (some d) ≡ err (not_found "user")
unfolding admitted authorize verify_real_host require_db
admitted-no_user env lib now auth header action_id room_id args d action a o p r n =
    rw (admitted, a, authorize, p, o, verify_real_host, r, n) refl

-- With a database and a request that names a room, a caller who holds the permission of an action
-- that is open to hosts is refused all the same if no user row has the caller's id, as with Root:
-- the host is looked up before the permission counts.
pub execute_action-no_user :
    (env : Env) (lib : TokenLibrary) (now command_id : ℕ) (auth : AuthPrincipal) (header : Header)
    (action_id room_id : String) (args : Value) (server : Server) (d : ServerDb)
    (action : ActionDescriptor)
    → server.db ≡ some d
    → admit action_id ≡ ok action
    → action.host_allowed ≡ true
    → has_permission (some d.permissions) (principal_of auth) action.permission ≡ ok true
    → get_string "room_id" args ≡ some room_id
    → find (λ u. u.0 == auth.sub) d.users ≡ none
    → execute_action env lib now command_id auth header action_id args server
      ≡ (err (not_found "user"), server)
unfolding execute_action
execute_action-no_user env lib now command_id auth header action_id room_id args server d action c a
      o p r n =
    let refusal : admitted env lib now auth header action_id args server.db
        ≡ err (not_found "user") =
      ap (admitted env lib now auth header action_id args) c
      ∙ admitted-no_user env lib now auth header action_id room_id args d action a o p r n in
    ground (arith, refusal)

-- What a raw console command shows before it is sent.
pub record IsConsoleAllowed (env : Env) (lib : TokenLibrary) (now limit : ℕ) (auth : AuthPrincipal)
    (header : Header) (limiter : RateLimiter) (db : Option ServerDb) : Type 0 where
  pub permitted : require (permissions_db db) (principal_of auth) "pmp:cli" ≡ ok tt
  pub within : (RateLimit.check limiter now (raw_cli_key env auth) limit).0 ≡ ok tt
  pub confirmed : IsReauthenticated lib now auth.sid header ReauthRisk.high

-- execute_command sends something to PMP only for a caller with the permission pmp:cli, within the
-- rate limit, and reauthenticated; and what it sends is the one console command with the body's text.
pub execute_command-gated :
    (env : Env) (lib : TokenLibrary) (now limit command_id : ℕ) (auth : AuthPrincipal)
    (header : Header) (text : String) (limiter : RateLimiter) (db : Option ServerDb) (first : Sent)
    (rest : List Sent)
    → (execute_command env lib now limit command_id auth header text limiter db).sent ≡ first ∷ rest
    → IsConsoleAllowed env lib now limit auth header limiter db
      × (first ∷ rest ≡ ("cli.execute", cli_params text) ∷ [])
unfolding execute_command run_command send_cli send require_db
execute_command-gated env lib now limit command_id auth header text limiter db first rest h =
    elim (Result-cases (require (permissions_db db) (principal_of auth) "pmp:cli")) [
      | inr (e, p) ↦ absurd (ground (arith, p, h))
      | inl (u, p) ↦
          let counted = RateLimit.check limiter now (raw_cli_key env auth) limit in
          elim (Result-cases (
            counted.0
            >> check_reauth_header lib now auth header ReauthRisk.high
            >> require_db db)) [
              | inr (e, c) ↦ absurd (ground (arith, p, c, h))
              | inl (d, c) ↦
                  let (checks, _) =
                    then_ok (counted.0 >> check_reauth_header lib now auth header ReauthRisk.high)
                      (require_db db) d c in
                  let (within, confirmed) =
                    then_ok counted.0 (check_reauth_header lib now auth header ReauthRisk.high) tt
                      checks in
                  (
                    record {
                      permitted = p;
                      within = within;
                      confirmed =
                          check_reauth_header-IsReauthenticated lib now auth header ReauthRisk.high
                            confirmed;
                    },
                    sym (ground (arith, p, c, h)),
                  )
            ]
    ]
