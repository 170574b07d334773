-- ===== src/Actions/Execution/Commands.antt =====
-- The console commands that an execution sends to PMP: crates/ppb-server/src/actions/executor.rs.
use phira_plus_backend.Prelude.{
  ℕ, ◌≡◌, refl, ◌∙◌, sym, ap, String, Bool, true, false, not, ◌&&◌, ◌||◌, Option, none, some, List,
  [], ◌∷◌, ◌==◌, string_eq, every, contains, arith, Bool-cases, inl, inr,
}
use phira_plus_backend.Json.{get_string, get_bool}
use phira_plus_backend.Actions.{
  Executor, open_uds, cli_execute, cli_raw, ActionDescriptor, find_action,
}
use phira_plus_backend.Actions.Registry.{
  is_open_uds, is_cli_raw, find_action-is_disciplined, find_action-executor,
}
use phira_plus_backend.Actions.Execution.{
  Env, CommandTask, ServerDb, Sent, connections_command, fixed_cli_command, or_empty_text, send,
  send_cli, run_fixed, run_with, run,
}

abbrev pub fixed_texts : List String
fixed_texts = "connections" ∷ "connections on" ∷ "connections off" ∷ []

-- A command that is not for the console, or is one of the fixed texts.
abbrev pub is_fixed : Sent → Bool
is_fixed sent =
    not (sent.0 == "cli.execute")
    || contains fixed_texts (or_empty_text (get_string "command" sent.1))

connections_command-is_fixed :
    (enabled : Option Bool) → contains fixed_texts (connections_command enabled) ≡ true
connections_command-is_fixed none = refl
connections_command-is_fixed (some true) = refl
connections_command-is_fixed (some false) = refl

run_with-is_fixed :
    (executor : Executor) (env : Env) (now : ℕ) (task : CommandTask) (db : Option ServerDb)
    → is_cli_raw executor ≡ false
    → (is_open_uds executor && task.action == "cli.execute") ≡ false
    → every is_fixed (run_with executor env now task db).sent ≡ true
unfolding run_with send send_cli run_fixed fixed_cli_command
run_with-is_fixed open_uds env now task db r o = ground (arith, o)
run_with-is_fixed cli_execute env now task db r o =
    elim (Bool-cases (task.action == "server.connections")) [
      | inr n ↦ ground (arith, n)
      | inl e ↦ ground (arith, e, connections_command-is_fixed (get_bool "enabled" task.args))
    ]
run_with-is_fixed cli_raw env now task db r o = absurd (ground (arith, r))
run_with-is_fixed Executor.internal env now task db r o = refl

-- An action other than pmp.cli.execute, with whatever arguments, sends no console command but the
-- three fixed ones.
pub run-is_fixed :
    (env : Env) (now : ℕ) (task : CommandTask) (db : Option ServerDb) (action : ActionDescriptor)
    → find_action task.action ≡ some action
    → (action.id == "pmp.cli.execute") ≡ false
    → every is_fixed (run env now task db).sent ≡ true
unfolding run
run-is_fixed env now task db action f n =
    let (same, _) = find_action-is_disciplined task.action action f in
    let (raw, typed) = find_action-executor task.action action f in
    rw (run, f)
      (run_with-is_fixed action.executor env now task db (only_raw action.executor raw)
        (ap (λ t. is_open_uds action.executor && t == "cli.execute") (sym same) ∙ typed))
  where
    only_raw :
        (x : Executor)
        → (not (is_cli_raw x) || (action.id == "pmp.cli.execute" && action.reauth)) ≡ true
        → is_cli_raw x ≡ false
    only_raw cli_raw h = absurd (ground (arith, h, n))
    only_raw open_uds h = refl
    only_raw cli_execute h = refl
    only_raw Executor.internal h = refl
