-- ===== src/Actions.antt =====
-- The action registry, the queue keys and the redaction of arguments:
-- crates/ppb-server/src/actions/types.rs and registry.rs, and redact_args of commands/broker.rs.
-- The ids of the registry are distinct, so that its map is a search of the list.
pub mod Registry
mod Redaction
pub mod Execution
pub mod Broker
pub mod Routes
mod Tests
use phira_plus_backend.Prelude.{
  ℕ, String, Bool, true, false, not, ◌&&◌, ◌||◌, Option, none, some, List, [], ◌∷◌, ◌==◌, nat_eq,
  string_eq, find, contains, codes, replace, if◌then◌else◌,
}
use phira_plus_backend.Json.{
  Value, Fields, object, string, end, field, get, get_string, as_object, insert_field,
}
use phira_plus_backend.ApiError.{to_ascii_lowercase, has_infix}

pub data Executor : Type 0 where
  open_uds cli_execute cli_raw internal : Executor

pub data Risk : Type 0 where
  low medium high critical : Risk

pub record ActionDescriptor : Type 0 where
  pub id : String
  pub permission : String
  pub executor : Executor
  pub risk : Risk
  pub audit : Bool
  pub reauth : Bool
  pub host_allowed : Bool
  pub queue_key : String
  pub long_running : Bool

-- `ActionDescriptor::new`.
abbrev pub descriptor :
    String → String → Executor → Risk → Bool → Bool → Bool → String → Bool → ActionDescriptor
descriptor id permission executor risk audit reauth host_allowed queue_key long_running = record {
  id = id;
  permission = permission;
  executor = executor;
  risk = risk;
  audit = audit;
  reauth = reauth;
  host_allowed = host_allowed;
  queue_key = queue_key;
  long_running = long_running;
}

abbrev pub seed_actions : List ActionDescriptor
seed_actions =
    descriptor "room.kick" "room:kick" open_uds medium true false true "room:{room_id}" false
    ∷ descriptor "room.force_move" "room:move" open_uds medium true false true "room:{room_id}"
        false
    ∷ descriptor "room.start" "room:start" open_uds medium true false true "room:{room_id}" false
    ∷ descriptor "room.cancel_start" "room:start" open_uds medium true false true "room:{room_id}"
        false
    ∷ descriptor "room.ready" "room:start" open_uds low true false false "room:{room_id}" false
    ∷ descriptor "room.close" "room:manage" open_uds high true false false "room:{room_id}" false
    ∷ descriptor "room.set_chart" "room:config" open_uds medium true false true "room:{room_id}"
        false
    ∷ descriptor "room.lock" "room:config" open_uds medium true false true "room:{room_id}" false
    ∷ descriptor "room.cycle" "room:config" open_uds medium true false true "room:{room_id}" false
    ∷ descriptor "room.set_live" "room:config" open_uds medium true false true "room:{room_id}"
        false
    ∷ descriptor "room.set_hidden" "room:config" open_uds medium true false true "room:{room_id}"
        false
    ∷ descriptor "room.set_persistent" "room:config" open_uds medium true false true
        "room:{room_id}" false
    ∷ descriptor "room.set_api_endpoint" "room:config" open_uds high true false false
        "room:{room_id}" false
    ∷ descriptor "room.set_host" "room:config" open_uds high true false false "room:{room_id}" false
    ∷ descriptor "room.set_degraded" "room:config" open_uds high true false false "room:{room_id}"
        false
    ∷ descriptor "room.ban" "room:blacklist" open_uds medium true false true "room:{room_id}" false
    ∷ descriptor "room.unban" "room:blacklist" open_uds medium true false true "room:{room_id}"
        false
    ∷ descriptor "room.whitelist_add" "room:whitelist" open_uds medium true false true
        "room:{room_id}" false
    ∷ descriptor "room.whitelist_remove" "room:whitelist" open_uds medium true false true
        "room:{room_id}" false
    ∷ descriptor "player.kick" "user:kick" open_uds medium true false false "user:{user_id}" false
    ∷ descriptor "player.ban" "user:ban" open_uds high true true false "user:{user_id}" false
    ∷ descriptor "player.unban" "user:ban" open_uds medium true true false "user:{user_id}" false
    ∷ descriptor "player.ban_ip" "user:ban_ip" open_uds high true true false "server" false
    ∷ descriptor "player.unban_ip" "user:ban_ip" open_uds high true true false "server" false
    ∷ descriptor "broadcast.all" "broadcast:all" open_uds high true false false "server" false
    ∷ descriptor "broadcast.room" "broadcast:room" open_uds medium true false false "room:{room_id}"
        false
    ∷ descriptor "broadcast.user" "broadcast:user" open_uds medium true false false "server" false
    ∷ descriptor "server.config_reload" "config:reload" open_uds high true false false "config:pmp"
        false
    ∷ descriptor "server.roomcreation" "server:manage" open_uds high true false false "server" false
    ∷ descriptor "server.shutdown" "server:shutdown" open_uds critical true true false "server"
        false
    ∷ descriptor "server.start" "server:start" internal critical true true false "server" false
    ∷ descriptor "server.supervisor_stop" "server:shutdown" internal critical true true false
        "server" false
    ∷ descriptor "server.connections" "server:manage" cli_execute high true false false "server"
        false
    ∷ descriptor "pmp.cli.execute" "pmp:cli" cli_raw high true true false "server" false
    ∷ descriptor "pmp.update.apply" "server:update" cli_execute critical true true false "server"
        true
    ∷ descriptor "pmp.update.check" "server:update" cli_execute high true false false "server" false
    ∷ descriptor "pmp.update.cancel" "server:update" cli_execute high true false false "server"
        false
    ∷ descriptor "pmp.update.force" "server:update" cli_execute critical true true false "server"
        true
    ∷ descriptor "user.revoke_sessions" "user:kick" internal high true false false "user:{user_id}"
        false
    ∷ []

-- `ActionRegistry::get` of the registry that `new` fills.
unfoldable pub find_action : String → Option ActionDescriptor
find_action id = find (λ a. a.id == id) seed_actions

abbrev pub job_only_ids : List String
job_only_ids =
    "pmp.update.check" ∷ "pmp.update.apply" ∷ "pmp.update.cancel" ∷ "pmp.update.force" ∷ []

unfoldable pub is_job_only_action : String → Bool
is_job_only_action id = contains job_only_ids id

abbrev pub replace_room : Option String → String → String
replace_room none key = key
replace_room (some room_id) key = replace key "{room_id}" room_id

abbrev pub replace_user : (Value → String) → Option Value → String → String
replace_user print none key = key
replace_user print (some user_id) key = replace key "{user_id}" (print user_id)

-- `resolve_queue_key`; `print` is the JSON text of a value.
unfoldable pub resolve_queue_key : (Value → String) → ActionDescriptor → Value → String
resolve_queue_key print action args =
    if not (has_infix (codes "{") (codes action.queue_key))
    then action.queue_key
    else replace_user print (get "user_id" args)
        (replace_room (get_string "room_id" args) action.queue_key)

-- The test of a key in `redact_args`.
pub is_sensitive : String → Bool
unfolding to_ascii_lowercase has_infix
is_sensitive k =
    let key = to_ascii_lowercase (codes k) in
    has_infix (codes "password") key
    || (has_infix (codes "token") key || has_infix (codes "secret") key)

-- The loop of `redact_args`, which inserts the entries in order.
pub redact_fields : Fields → Fields → Fields
unfolding is_sensitive
redact_fields end out = out
redact_fields (field k v obj) out =
    redact_fields obj (insert_field k (if is_sensitive k then string "[REDACTED]" else v) out)

pub redact_args : Value → Value
unfolding redact_fields
redact_args args = elim (as_object args) [
  | none ↦ object end
  | some obj ↦ object (redact_fields obj end)
]
