-- ===== src/Runbooks/Steps/Tests.antt =====
-- The arguments of a kick: the step names the player, and the run the room and another player.
use phira_plus_backend.Prelude.{◌≡◌, refl, pos, some}
use phira_plus_backend.Json.{Fields, object, null, number, string, field, end, get, insert_field}
use phira_plus_backend.Runbooks.Steps.{merge_args}

abbrev player : Fields
player = field "user_id" (number (pos 42)) end

abbrev room : Fields
room = field "room_id" (string "ABC") (field "user_id" (number (pos 7)) end)

room_added : get "room_id" (merge_args (object player) (object room)) ≡ some (string "ABC")
unfolding merge_args insert_field
room_added = refl

own_player : get "user_id" (merge_args (object player) (object room)) ≡ some (number (pos 42))
unfolding merge_args insert_field
own_player = refl

nothing_added : merge_args null (object room) ≡ null
unfolding merge_args
nothing_added = refl
