-- ===== src/Actions/Broker/Tests.antt =====
-- A queue key with two tasks, a full one and a dead one.
use phira_plus_backend.Prelude.{◌≡◌, refl, true, false, some, none, [], ◌∷◌, ℕ, modify}
use phira_plus_backend.Json.{object, end}
use phira_plus_backend.ErrorCode.{long_job_accepted}
use phira_plus_backend.ApiError.{ApiError, err, api_error}
use phira_plus_backend.Actions.Execution.{CommandTask}
use phira_plus_backend.Actions.Broker.{
  Workers, worker_of, submit, receive, Reach, start, submitted, received,
}
use phira_plus_backend.Actions.Broker.Steps.{IsInOrder}
use phira_plus_backend.Actions.Broker.Order.{Reach-IsInOrder}

abbrev task : ℕ → CommandTask
task id = record {
  command_id = id;
  action = "room.kick";
  actor = "id";
  resource_key = "room:ABC";
  args = object end;
  args_redacted = object end;
  completion = true;
  audit = none;
}

abbrev one : Workers
one = (submit (task 1) []).1

abbrev two : Workers
two = (submit (task 2) one).1

abbrev busy : Workers
busy = receive "room:ABC" two

both_accepted : Reach (task 1 ∷ task 2 ∷ []) [] busy
unfolding submit modify
both_accepted = received (submitted (submitted start (task 1)) (task 2)) "room:ABC"

Reach-IsInOrder_example : IsInOrder "room:ABC" (task 1 ∷ task 2 ∷ []) [] (worker_of "room:ABC" busy)
Reach-IsInOrder_example = Reach-IsInOrder both_accepted "room:ABC"

abbrev dead : Workers
dead = ("room:ABC", record { queue = []; running = none; is_alive = false }) ∷ []

abbrev full_error : ApiError
full_error = api_error long_job_accepted "command queue full"

dead_refuses : (submit (task 3) dead).0 ≡ err full_error
unfolding submit
dead_refuses = refl

first_runs : (worker_of "room:ABC" busy).running ≡ some (task 1)
unfolding submit receive modify
first_runs = refl
