-- ===== src/Actions/Tests.antt =====
-- The registry and the redaction at work.
use phira_plus_backend.Prelude.{◌≡◌, refl, true, false, replace, some, string_eq}
use phira_plus_backend.Json.{Fields, object, string, field, end, get, get_field}
use phira_plus_backend.ApiError.{has_infix}
use phira_plus_backend.Actions.{
  descriptor, ActionDescriptor, open_uds, medium, find_action, resolve_queue_key, is_sensitive,
  redact_args,
}
use phira_plus_backend.Actions.Registry.{is_disciplined, find_action-is_disciplined}
use phira_plus_backend.Actions.Redaction.{redacted, redact_args-get}

abbrev kick : ActionDescriptor
kick = descriptor "room.kick" "room:kick" open_uds medium true false true "room:{room_id}" false

kick_found : find_action "room.kick" ≡ some kick
unfolding find_action
kick_found = refl

find_action-is_disciplined_example : (kick.id ≡ "room.kick") × (is_disciplined kick ≡ true)
find_action-is_disciplined_example = find_action-is_disciplined "room.kick" kick kick_found

abbrev arguments : Fields
arguments = field "room_id" (string "ABC") (
    field "Refresh_Token" (string "abc")
      (field "nested" (object (field "password" (string "x") end)) end))

token_is_sensitive : is_sensitive "Refresh_Token" ≡ true
unfolding is_sensitive
token_is_sensitive = refl

redact_args-get_example :
    get "nested" (redact_args (object arguments)) ≡ redacted "nested" (get_field "nested" arguments)
redact_args-get_example = redact_args-get "nested" arguments refl

-- A secret one level down is kept.
nested_secret_kept :
    get "nested" (redact_args (object arguments))
    ≡ some (object (field "password" (string "x") end))
unfolding is_sensitive
nested_secret_kept = redact_args-get "nested" arguments refl

queue_of_room : resolve_queue_key (λ v. "42") kick (object arguments) ≡ "room:ABC"
unfolding resolve_queue_key has_infix replace
queue_of_room = refl

queue_without_room : resolve_queue_key (λ v. "42") kick (object end) ≡ "room:{room_id}"
unfolding resolve_queue_key has_infix
queue_without_room = refl
