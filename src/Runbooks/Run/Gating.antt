-- ===== src/Runbooks/Run/Gating.antt =====
-- What a run may queue, and what that sends to the PMP console: `run` of
-- crates/ppb-server/src/automation/routes.rs, with the executor of actions/executor.rs.
use phira_plus_backend.Prelude.{
  ℕ, ◌≡◌, ◌∙◌, sym, ap, subst, ◌⊎◌, inl, inr, true, Option, some, List, [], ◌∷◌, ◌==◌, string_eq,
  eq_iff, every, All, All-append, All-map, Bool-cases, arith,
}
use phira_plus_backend.Json.{Value}
use phira_plus_backend.ApiError.{ok}
use phira_plus_backend.Permissions.{has_permission}
use phira_plus_backend.Jobs.{ReauthRisk}
use phira_plus_backend.Auth.{AuthPrincipal, TokenLibrary, Header}
use phira_plus_backend.Auth.Handlers.Reauth.{IsReauthenticated}
use phira_plus_backend.Actions.{find_action}
use phira_plus_backend.Actions.Registry.{find_action-is_disciplined, find_action-raw}
use phira_plus_backend.Actions.Execution.{Env, ServerDb, run}
use phira_plus_backend.Actions.Execution.Commands.{is_fixed, run-is_fixed}
use phira_plus_backend.Actions.Routes.{principal_of, reauth_risk}
use phira_plus_backend.Runbooks.{RunbookStep, Runbook, State}
use phira_plus_backend.Runbooks.Steps.{World, Queued, play_step}
use phira_plus_backend.Runbooks.Steps.Gates.{IsGated, play_step-IsGated}
use phira_plus_backend.Runbooks.Steps.Endings.{StepEnd-cases}
use phira_plus_backend.Runbooks.Run.{play_steps, played}

module _ (env : Env) (lib : TokenLibrary) (world : World) (auth : AuthPrincipal) (header : Header)
    (id : ℕ) (run_args : Value) where
  play_steps-IsGated :
      (steps : List RunbookStep) (st : State)
      → All
          (IsGated lib auth header)
          (play_steps env lib world auth header id run_args steps st).queued
  unfolding play_steps
  play_steps-IsGated [] st = tt
  play_steps-IsGated (step ∷ steps) st =
      let first = play_step env lib world auth header id run_args step st in
      let gated = play_step-IsGated env lib world auth header id run_args step st in
      elim (StepEnd-cases first.ending) [
        | inl e ↦
            rw (play_steps, e)
              (All-append (IsGated lib auth header) first.queued _ gated
                (play_steps-IsGated steps first.state))
        | inr (inl e) ↦ rw (play_steps, e) gated
        | inr (inr (x, e)) ↦ rw (play_steps, e) gated
      ]

-- Every command that a run of a runbook queues, whatever other handlers do in the meantime, is of a
-- registered action that neither runs long nor is left to the jobs, whose permission the caller held
-- when it was queued, and with an adequate reauthentication then where the action asks for one.
pub played-IsGated :
    (env : Env) (lib : TokenLibrary) (world : World) (auth : AuthPrincipal) (header : Header)
    (run_id : ℕ) (runbook : Runbook) (args : Value) (st : State)
    → All (IsGated lib auth header) (played env lib world auth header run_id runbook args st).queued
unfolding played
played-IsGated env lib world auth header run_id runbook args st =
    play_steps-IsGated env lib world auth header runbook.id args runbook.definition.steps _

-- The caller may use the raw console: the permission pmp:cli and a reauthentication.
pub record MayUseConsole (lib : TokenLibrary) (auth : AuthPrincipal) (header : Header) (q : Queued)
    : Type 0 where
  pub permitted :
      has_permission (some q.state.db.permissions) (principal_of auth) "pmp:cli" ≡ ok true
  pub confirmed : IsReauthenticated lib q.state.now auth.sid header ReauthRisk.high

-- A queued command sends nothing but the fixed texts to the console when it is executed, or its
-- caller may use the raw console.
abbrev pub IsConsoleSafe : Env → TokenLibrary → AuthPrincipal → Header → Queued → Type 0
IsConsoleSafe env lib auth header q =
    ((later : ℕ) (db : Option ServerDb) → every is_fixed (run env later q.task db).sent ≡ true)
    ⊎ MayUseConsole lib auth header q

IsGated-IsConsoleSafe :
    (env : Env) (lib : TokenLibrary) (auth : AuthPrincipal) (header : Header) (q : Queued)
    → IsGated lib auth header q
    → IsConsoleSafe env lib auth header q
IsGated-IsConsoleSafe env lib auth header q g =
    elim (Bool-cases (g.action.id == "pmp.cli.execute")) [
      | inr n ↦ inl (λ later db. run-is_fixed env later q.task db g.action g.found n)
      | inl y ↦
          let (same, _) = find_action-is_disciplined q.task.action g.action g.found in
          let named : q.task.action ≡ "pmp.cli.execute" =
            sym same ∙ (eq_iff g.action.id "pmp.cli.execute").0 y in
          let (cli, asks, risk) = find_action-raw g.action (ap find_action (sym named) ∙ g.found) in
          inr (record {
            permitted =
                subst
                  (λ p.
                    has_permission (some q.state.db.permissions) (principal_of auth) p ≡ ok true)
                  cli g.granted;
            confirmed = elim g.confirmed [
              | inl n ↦ absurd (ground (arith, asks, n))
              | inr r ↦
                  subst (λ k. IsReauthenticated lib q.state.now auth.sid header (reauth_risk k))
                    risk r
            ];
          })
    ]

-- A command that a run of a runbook queues sends no text to the PMP console when it is executed but
-- the three fixed ones, unless its caller held the permission pmp:cli and had reauthenticated when it
-- was queued.
pub played-IsConsoleSafe :
    (env : Env) (lib : TokenLibrary) (world : World) (auth : AuthPrincipal) (header : Header)
    (run_id : ℕ) (runbook : Runbook) (args : Value) (st : State)
    → All
        (IsConsoleSafe env lib auth header)
        (played env lib world auth header run_id runbook args st).queued
played-IsConsoleSafe env lib world auth header run_id runbook args st =
    All-map (IsGated lib auth header) (IsConsoleSafe env lib auth header) _
      (IsGated-IsConsoleSafe env lib auth header)
      (played-IsGated env lib world auth header run_id runbook args st)
