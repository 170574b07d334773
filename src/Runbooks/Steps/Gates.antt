-- ===== src/Runbooks/Steps/Gates.antt =====
-- Whose steps are queued: the body of the loop of `run` in
-- crates/ppb-server/src/automation/routes.rs.
use phira_plus_backend.Prelude.{
  List, [], refl, ℕ, ◌≡◌, ◌∙◌, ap, ◌⊎◌, inl, inr, true, false, ◌||◌, Option, none, some, string_eq,
  All, Bool-cases, Option-cases, arith,
}
use phira_plus_backend.Json.{Value}
use phira_plus_backend.ApiError.{ApiError, ok, err, ◌>>◌, Result-cases, bind_ok, then_ok}
use phira_plus_backend.Permissions.{has_permission}
use phira_plus_backend.Auth.{AuthPrincipal, TokenLibrary, Header}
use phira_plus_backend.Auth.Handlers.Reauth.{IsReauthenticated}
use phira_plus_backend.Actions.{ActionDescriptor, find_action, is_job_only_action}
use phira_plus_backend.Actions.Registry.{find_action-is_disciplined}
use phira_plus_backend.Actions.Execution.{Env, Outcome, succeeded, failed, CommandTask}
use phira_plus_backend.Actions.Broker.{submit}
use phira_plus_backend.Actions.Routes.{principal_of, reauth_risk, check_action_reauth}
use phira_plus_backend.Actions.Routes.Authorization.{check_action_reauth-ok}
use phira_plus_backend.Runbooks.{RunbookRun, RunbookStep, State, has_action}
use phira_plus_backend.Runbooks.Steps.{
  World, Queued, cleared, step_task, settle, play_task, stored, play_action, play_wait, play_step,
  stopped, raised,
}

-- A queued command is of a registered action that neither runs long nor is left to the jobs; the
-- caller held its permission and had reauthenticated, where it asks for that, when it was queued.
pub record IsGated (lib : TokenLibrary) (auth : AuthPrincipal) (header : Header) (q : Queued)
    : Type 0 where
  pub action : ActionDescriptor
  pub found : find_action q.task.action ≡ some action
  pub short : (action.long_running || is_job_only_action action.id) ≡ false
  pub granted :
      has_permission (some q.state.db.permissions) (principal_of auth) action.permission ≡ ok true
  pub confirmed :
      (action.reauth ≡ false)
      ⊎ IsReauthenticated lib q.state.now auth.sid header (reauth_risk action.risk)

cleared-ok :
    (lib : TokenLibrary) (auth : AuthPrincipal) (header : Header) (action : ActionDescriptor)
    (st : State)
    → cleared lib auth header action st ≡ ok true
    → (has_permission (some st.db.permissions) (principal_of auth) action.permission ≡ ok true)
      × ((action.reauth ≡ false)
          ⊎ IsReauthenticated lib st.now auth.sid header (reauth_risk action.risk))
unfolding cleared
cleared-ok lib auth header action st h =
    let (held, p, rest) =
      bind_ok (has_permission (some st.db.permissions) (principal_of auth) action.permission) _ true
        h in
    elim (Bool-cases held) [
      | inr n ↦ absurd (ground (arith, n, rest))
      | inl y ↦
          let asked : (check_action_reauth lib st.now auth header action >> ok true) ≡ ok true =
            ground (arith, y, rest) in
          let (r, _) = then_ok _ _ true asked in
          (p ∙ ap ok y, check_action_reauth-ok lib st.now auth header action r)
    ]

settle-queued :
    (P : Queued → Type 0) (world : World) (step : RunbookStep) (q : Queued)
    (done : Option Outcome × State)
    → P q
    → All P (settle world step q done).queued
unfolding settle
settle-queued P world step q (none, st) p = (p, tt)
settle-queued P world step q (some (succeeded v), st) p = (p, tt)
settle-queued P world step q (some (failed e), st) p = (p, tt)

play_task-queued :
    (P : Queued → Type 0) (world : World) (step : RunbookStep) (task : CommandTask) (st : State)
    → P (record { state = st; task = task })
    → All P (play_task world step task st).queued
unfolding play_task
play_task-queued P world step task st p = elim (Result-cases (submit task st.workers).0) [
  | inr (x, e) ↦ rw (play_task, e) tt
  | inl (done, e) ↦
      rw (play_task, e)
        (settle-queued P world step (record { state = st; task = task })
          (world.complete task (stored task st)) p)
]

play_action-IsGated :
    (env : Env) (lib : TokenLibrary) (world : World) (auth : AuthPrincipal) (header : Header)
    (id : ℕ) (run_args : Value) (step : RunbookStep) (action : ActionDescriptor) (st : State)
    → find_action step.action ≡ some action
    → All
        (IsGated lib auth header)
        (play_action env lib world auth header id run_args step action st).queued
unfolding play_action step_task
play_action-IsGated env lib world auth header id run_args step action st found =
    elim (Bool-cases (action.long_running || is_job_only_action action.id)) [
      | inl l ↦ rw (play_action, l) tt
      | inr s ↦ elim (Result-cases (cleared lib auth header action st)) [
        | inr (x, e) ↦ rw (play_action, s, e) tt
        | inl (held, e) ↦ elim (Bool-cases held) [
          | inr n ↦ rw (play_action, s, e, n) tt
          | inl y ↦
              let (granted, confirmed) = cleared-ok lib auth header action st (e ∙ ap ok y) in
              let (same, _) = find_action-is_disciplined step.action action found in
              rw (play_action, s, e, y)
                (play_task-queued (IsGated lib auth header) world step _ st (record {
                  action = action;
                  found = ap find_action same ∙ found;
                  short = s;
                  granted = granted;
                  confirmed = confirmed;
                }))
        ]
      ]
    ]

play_wait-queued :
    (P : Queued → Type 0) (world : World) (wait : Option ℕ) (st : State)
    → All P (play_wait world wait st).queued
unfolding play_wait
play_wait-queued P world none st = tt
play_wait-queued P world (some secs) st = tt

pub play_step-IsGated :
    (env : Env) (lib : TokenLibrary) (world : World) (auth : AuthPrincipal) (header : Header)
    (id : ℕ) (run_args : Value) (step : RunbookStep) (st : State)
    → All (IsGated lib auth header) (play_step env lib world auth header id run_args step st).queued
unfolding play_step
play_step-IsGated env lib world auth header id run_args step st =
    elim (Bool-cases (has_action step)) [
      | inr w ↦
          rw (play_step, w) (play_wait-queued (IsGated lib auth header) world step.wait_secs st)
      | inl h ↦ elim (Option-cases (find_action step.action)) [
        | inl n ↦ rw (play_step, h, n) tt
        | inr (action, found) ↦
            rw (play_step, h, found)
              (play_action-IsGated env lib world auth header id run_args step action st found)
      ]
    ]

-- A step that the resolver or the reauthentication refuses queues nothing.
pub play_step-raised :
    (env : Env) (lib : TokenLibrary) (world : World) (auth : AuthPrincipal) (header : Header)
    (id : ℕ) (run_args : Value) (step : RunbookStep) (action : ActionDescriptor) (st : State)
    (e : ApiError)
    → has_action step ≡ true
    → find_action step.action ≡ some action
    → (action.long_running || is_job_only_action action.id) ≡ false
    → cleared lib auth header action st ≡ err e
    → play_step env lib world auth header id run_args step st ≡ stopped (raised e) [] st
unfolding play_step play_action
play_step-raised env lib world auth header id run_args step action st e h found short refused =
    rw (play_step, h, found, play_action, short, refused) refl

pub cleared-runs :
    (lib : TokenLibrary) (auth : AuthPrincipal) (header : Header) (action : ActionDescriptor)
    (st : State) (runs : List RunbookRun)
    → cleared lib auth header action (record st { runs = runs }) ≡ cleared lib auth header action st
unfolding cleared
cleared-runs lib auth header action st runs = refl
