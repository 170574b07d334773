-- ===== src/Coupons/Redeem.antt =====
-- The redemption of a code: `redeem` and `execute_action` of
-- crates/ppb-server/src/admin/coupons.rs.
mod Guards
mod Rows
mod Counting
mod Statuses
mod Lifecycle
mod Privilege
mod Tests
use phira_plus_backend.Prelude.{
  ℕ, ◌+◌, ◌-◌, ℤ, pos, negsuc, String, Bool, true, false, not, ◌&&◌, ◌||◌, Option, none, some, List,
  [], ◌∷◌, ◌==◌, nat_eq, string_eq, any, find, update_where, leb, int_eq, codes, trim, is_empty,
  is_some, nat_beq, if◌then◌else◌,
}
use phira_plus_backend.Json.{Value, null, object, end, get_string}
use phira_plus_backend.ErrorCode.{
  validation_failed, user_not_found, resource_conflict, redemption_code_not_found,
  redemption_code_revoked, redemption_code_expired, redemption_code_limit_reached,
  redemption_code_already_used, redemption_action_unsupported, group_not_found,
}
use phira_plus_backend.ApiError.{
  ApiError, Result, ok, err, ◌>>◌, ◌>>=◌, api_error, denied, to_ascii_lowercase,
}
use phira_plus_backend.Permissions
use phira_plus_backend.Permissions.{
  Principal, root, user, Group, has_id, has_name, is_admin_scope, text_eq, require, insert_member,
}
use phira_plus_backend.Coupons.{
  Coupon, Outcome, unlocked, joined, task_made, event_made, Redemption, User, AdminTask, Event, Db,
  normalize, refuse_if, validate_action, is_past, has_code, is_coupon, not_found,
}

abbrev pub or_text : String → Option String → String
or_text default none = default
or_text default (some s) = s

pub group_with : Option ℕ → Permissions.Db → Result (Option Group)
group_with none db = err (api_error validation_failed "invalid group id")
group_with (some id) db = ok (find (has_id id) db.groups)

-- The two `SELECT`s of the arm `account_role`, by the arguments `group_id` and `group_name`;
-- `parse_uuid` is `Uuid::parse_str`.
pub target_group :
    (String → Option ℕ) → Option String → Option String → Permissions.Db → Result (Option Group)
unfolding group_with
target_group parse_uuid (some raw) name db = group_with (parse_uuid raw) db
target_group parse_uuid none name db = ok (find (has_name (codes (or_text "" name))) db.groups)

-- `eq_ignore_ascii_case("Administrators")`.
abbrev pub is_administrators : Group → Bool
is_administrators g = text_eq (to_ascii_lowercase g.name) (codes "administrators")

pub joinable : Option Group → Result Group
joinable none = err (api_error group_not_found "group not found")
joinable (some g) = if is_admin_scope g || is_administrators g then err denied else ok g

pub role_group : (String → Option ℕ) → Value → Permissions.Db → Result Group
unfolding target_group joinable
role_group parse_uuid args db =
    target_group parse_uuid (get_string "group_id" args) (get_string "group_name" args) db
    >>= joinable

pub joined_group : ℕ → Group → Db → Result Outcome × Db
joined_group uid g db = elim (insert_member g.id uid db.permissions).0 [
  | err e ↦ (err e, db)
  | ok done ↦ (
    ok (joined g.id g.name),
    record db { permissions = (insert_member g.id uid db.permissions).1 },
  )
]

pub assign_role : (String → Option ℕ) → ℕ → Value → Db → Result Outcome × Db
unfolding role_group joined_group
assign_role parse_uuid uid args db = elim (role_group parse_uuid args db.permissions) [
  | err e ↦ (err e, db)
  | ok g ↦ joined_group uid g db
]

abbrev pub active : User → User
active u = record u { status = "active" }

pub unlock_account : ℕ → Db → Result Outcome × Db
unlock_account uid db =
    (ok unlocked, record db { users = update_where (λ u. u.id == uid) active db.users })

abbrev pub new_task : ℕ → ℕ → ℕ → Value → AdminTask
new_task fresh uid coupon_id args = record {
  id = fresh;
  source_id = coupon_id;
  task_type = or_text "redemption_review" (get_string "task_type" args);
  redeemed_by = uid;
  args = args;
}

pub alert_admins : ℕ → ℕ → ℕ → Value → Db → Result Outcome × Db
alert_admins fresh uid coupon_id args db = (
  ok (task_made fresh (new_task fresh uid coupon_id args).task_type),
  record db { tasks = new_task fresh uid coupon_id args ∷ db.tasks },
)

abbrev pub new_event : ℕ → Value → Event
new_event fresh args = record {
  id = fresh;
  title = or_text "兑换成功" (get_string "title" args);
  body = or_text "兑换码奖励已发放。" (get_string "body" args);
}

-- The event's id is fresh, so that the second `INSERT` has no conflict.
pub notify_self : ℕ → ℕ → Value → Db → Result Outcome × Db
notify_self fresh uid args db = (
  ok (event_made fresh),
  record db {
    events = new_event fresh args ∷ db.events;
    notifications = (fresh, uid) ∷ db.notifications;
  },
)

pub execute_action : (String → Option ℕ) → ℕ → ℕ → ℕ → String → Value → Db → Result Outcome × Db
unfolding unlock_account assign_role alert_admins notify_self
execute_action parse_uuid fresh uid coupon_id kind args db =
    if kind == "account_unlock"
    then unlock_account uid db
    else if kind == "account_role"
    then assign_role parse_uuid uid args db
    else if kind == "admin_alert"
    then alert_admins fresh uid coupon_id args db
    else if kind == "custom_hook"
    then notify_self fresh uid args db
    else (err (api_error redemption_action_unsupported "unsupported redemption action"), db)

abbrev pub is_held_by : ℕ → Option ℕ → Bool
is_held_by uid none = false
is_held_by uid (some holder) = holder == uid

abbrev pub is_redemption : ℕ → ℕ → Redemption → Bool
is_redemption coupon_id uid r = r.coupon_id == coupon_id && r.user_id == uid

-- The refusals of `redeem` once it has the row.
pub redeemable : ℕ → ℕ → Coupon → Db → Result (Unit {0})
unfolding validate_action
redeemable now uid c db =
    refuse_if c.is_revoked (api_error redemption_code_revoked "redemption code revoked")
    >> (refuse_if (is_past now c.expires_at)
          (api_error redemption_code_expired "redemption code expired")
        >> (refuse_if (leb c.max_uses c.used_count)
              (api_error redemption_code_limit_reached "redemption code limit reached")
            >> (refuse_if (is_some c.holder_user_id && not (is_held_by uid c.holder_user_id)) denied
                >> (refuse_if (c.holder_mode == "creator" && not (is_held_by uid c.holder_user_id))
                      denied
                    >> (refuse_if (any (is_redemption c.id uid) db.redemptions)
                          (api_error redemption_code_already_used "redemption code already used")
                        >> validate_action c.action_type c.payload)))))

abbrev pub bump : Coupon → Coupon
bump c = record c { used_count = c.used_count + 1 }

abbrev pub redemption : ℕ → Coupon → Outcome → Redemption
redemption uid c result = record {
  coupon_id = c.id;
  user_id = uid;
  action_type = c.action_type;
  result = result;
}

-- The two statements that follow the action.
pub record_use : ℕ → Coupon → Outcome → Db → Db
record_use uid c result db = record db {
  coupons = update_where (is_coupon c.id) bump db.coupons;
  redemptions = redemption uid c result ∷ db.redemptions;
}

-- The end of the transaction, which an error rolls back.
pub finish : ℕ → Coupon → Db → Result Outcome × Db → Result (String × Outcome) × Db
unfolding record_use
finish uid c before (err e, after) = (err e, before)
finish uid c before (ok result, after) = (ok (c.action_type, result), record_use uid c result after)

pub redeem_row : (String → Option ℕ) → ℕ → ℕ → ℕ → Coupon → Db → Result (String × Outcome) × Db
unfolding redeemable execute_action finish
redeem_row parse_uuid fresh now uid c db = elim (redeemable now uid c db) [
  | err e ↦ (err e, db)
  | ok free ↦ finish uid c db (execute_action parse_uuid fresh uid c.id c.action_type c.payload db)
]

pub redeem : (String → Option ℕ) → ℕ → ℕ → Principal → List ℕ → Db → Result (String × Outcome) × Db
unfolding redeem_row normalize
redeem parse_uuid fresh now root code db = (err denied, db)
redeem parse_uuid fresh now (user uid) code db =
    if is_empty (normalize code)
    then (err (api_error validation_failed "code required"), db)
    else elim (find (has_code (normalize code)) db.coupons) [
      | none ↦ (err not_found, db)
      | some c ↦ redeem_row parse_uuid fresh now uid c db
    ]
