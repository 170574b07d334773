-- ===== src/Actions/Execution/Tests.antt =====
-- An execution at work.
use phira_plus_backend.Prelude.{
  ◌≡◌, refl, some, none, every, codes, true, string_eq, byte_prefix, utf8,
}
use phira_plus_backend.Json.{object, string, field, end}
use phira_plus_backend.Actions.{find_action}
use phira_plus_backend.Actions.Execution.{
  Env, refusal, OpenUdsError, failed, CommandTask, Ran, run, execute,
}
use phira_plus_backend.Actions.Execution.Truncation.{execute-concludes, is_ascii, failure_text}

abbrev pub env : Env
env = record {
  pmp = λ name params limit. refusal (OpenUdsError.command name "ROOM_NOT_FOUND" "no such room");
  start_pmp = λ args. failed "no deployment";
  stop_pmp = failed "no deployment";
  print = λ v. "{}";
  uuid_text = λ id. "id";
}

abbrev task : CommandTask
task = record {
  command_id = 9;
  action = "room.kick";
  actor = "id";
  resource_key = "room:ABC";
  args = object (field "room_id" (string "ABC") end);
  args_redacted = object end;
  completion = true;
  audit = none;
}

failure_is_ascii : every is_ascii (codes (failure_text (run env 100 task none).outcome)) ≡ true
unfolding run find_action
failure_is_ascii = refl

execute-concludes_example :
    (ran : Ran) × (execute env 100 task none ≡ some ran)
    × (ran.outcome ≡ (run env 100 task none).outcome)
    × (ran.sent ≡ (run env 100 task none).sent)
execute-concludes_example = execute-concludes env 100 task none failure_is_ascii

-- An answer of PMP in Chinese whose 120th byte falls inside a character.
abbrev chinese : Env
chinese = record env {
  pmp = λ name params limit.
      refusal
        (OpenUdsError.command name "ROOM_NOT_FOUND" "房间不存在或者已经关闭，请刷新房间列表之后再试一次；如果问题仍然存在，请联系管理员");
}

execution_panics : execute chinese 100 task none ≡ none
unfolding execute find_action byte_prefix utf8
execution_panics = refl
