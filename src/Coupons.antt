-- ===== src/Coupons.antt =====
-- Redemption codes: crates/ppb-server/src/admin/coupons.rs, over the tables `coupons` and
-- `coupon_redemptions` of migrations/0003_coupons.sql and 0011_redemption_codes.sql, and those that
-- a redemption writes. Fresh ids, the generated code and the clock are arguments, and so is the
-- parser of uuids. `redeem` locks the code's row, so that it is one step. Statements are taken to
-- succeed but where a constraint refuses them; the times of rows and the column created_by of a code,
-- which nothing reads, are left out.
mod Redeem
use phira_plus_backend.Prelude.{
  ℕ, ◌+◌, ◌-◌, ℤ, pos, negsuc, String, Bool, true, false, not, ◌&&◌, ◌||◌, Option, none, some, List,
  [], ◌∷◌, ◌==◌, nat_eq, string_eq, any, find, update_where, leb, int_eq, codes, trim, is_empty,
  is_some, nat_beq, if◌then◌else◌,
}
use phira_plus_backend.Json.{Value, null, object, end, get_string}
use phira_plus_backend.ErrorCode.{
  validation_failed, user_not_found, resource_conflict, redemption_code_not_found,
  redemption_code_revoked, redemption_code_expired, redemption_code_limit_reached,
  redemption_code_already_used, redemption_action_unsupported, group_not_found,
}
use phira_plus_backend.ApiError.{
  ApiError, Result, ok, err, ◌>>◌, ◌>>=◌, api_error, denied, to_ascii_lowercase,
}
use phira_plus_backend.Permissions
use phira_plus_backend.Permissions.{
  Principal, root, user, Group, has_id, has_name, is_admin_scope, text_eq, require, insert_member,
}

-- A row of `coupons`; its code is normalized.
pub record Coupon : Type 0 where
  pub id : ℕ
  pub code : List ℕ
  pub action_type : String
  pub payload : Value
  pub max_uses : ℕ
  pub used_count : ℕ
  pub holder_mode : String
  pub holder_user_id : Option ℕ
  pub note : List ℕ
  pub expires_at : Option ℕ
  pub is_revoked : Bool

-- The JSON that `execute_action` returns, one constructor for each of its forms.
pub data Outcome : Type 0 where
  unlocked : Outcome
  joined : ℕ → List ℕ → Outcome
  task_made : ℕ → String → Outcome
  event_made : ℕ → Outcome

pub record Redemption : Type 0 where
  pub coupon_id : ℕ
  pub user_id : ℕ
  pub action_type : String
  pub result : Outcome

pub record User : Type 0 where
  pub id : ℕ
  pub phira_id : ℤ
  pub status : String

-- A row of `admin_tasks` with the source `coupon`; the payload's fields follow its type.
pub record AdminTask : Type 0 where
  pub id : ℕ
  pub source_id : ℕ
  pub task_type : String
  pub redeemed_by : ℕ
  pub args : Value

-- A row of `notification_events` of the type `redemption.completed`.
pub record Event : Type 0 where
  pub id : ℕ
  pub title : String
  pub body : String

-- A user's notification is (event_id, user_id).
pub record Db : Type 0 where
  pub coupons : List Coupon
  pub redemptions : List Redemption
  pub permissions : Permissions.Db
  pub users : List User
  pub tasks : List AdminTask
  pub events : List Event
  pub notifications : List (ℕ × ℕ)

pub record CreateCouponBody : Type 0 where
  pub code : List ℕ
  pub action_type : String
  pub args : Value
  pub holder_mode : String
  pub holder_phira_id : Option ℤ
  pub note : List ℕ
  pub max_uses : Option ℤ
  pub expires_at : Option ℕ

pub to_ascii_uppercase : List ℕ → List ℕ
to_ascii_uppercase [] = []
to_ascii_uppercase (c ∷ s) = (if leb b'a' c && leb c b'z' then c - 32 else c) ∷ to_ascii_uppercase s

pub normalize : List ℕ → List ℕ
unfolding to_ascii_uppercase
normalize s = to_ascii_uppercase (trim s)

abbrev pub refuse_if : Bool → ApiError → Result (Unit {0})
refuse_if refused e = if refused then err e else ok tt

abbrev pub is_object : Value → Bool
is_object (object fs) = true
is_object _ = false

abbrev pub is_text : String → Option String → Bool
is_text s none = false
is_text s (some t) = t == s

-- The `match` of `validate_action`.
pub validate_kind : String → Value → Result (Unit {0})
validate_kind kind args =
    if kind == "account_unlock" || kind == "admin_alert"
    then ok tt
    else if kind == "account_role"
    then refuse_if
        (not (is_some (get_string "group_id" args) || is_some (get_string "group_name" args)))
        (api_error validation_failed "group target required")
    else if kind == "custom_hook"
    then refuse_if (not (is_text "notification.self" (get_string "hook_id" args)))
        (api_error redemption_action_unsupported "unsupported redemption hook")
    else err (api_error redemption_action_unsupported "unsupported redemption action")

pub validate_action : String → Value → Result (Unit {0})
unfolding validate_kind
validate_action kind args =
    refuse_if (not (is_object args)) (api_error validation_failed "redemption args must be object")
    >> validate_kind kind args

-- `max_uses.unwrap_or(1)` and its test; the column is the number that is left.
pub positive_uses : Option ℤ → Result ℕ
positive_uses none = ok 1
positive_uses (some (pos n)) =
    if nat_beq n 0 then err (api_error validation_failed "max uses must be positive") else ok n
positive_uses (some (negsuc n)) = err (api_error validation_failed "max uses must be positive")

-- `expires_at.is_some_and(|v| v <= now)`.
abbrev pub is_past : ℕ → Option ℕ → Bool
is_past now none = false
is_past now (some v) = leb v now

pub id_of_user : Option User → Result (Option ℕ)
id_of_user none = err (api_error user_not_found "user not found")
id_of_user (some u) = ok (some u.id)

-- The holder that `create` stores.
pub holder_of : Principal → CreateCouponBody → Db → Result (Option ℕ)
unfolding id_of_user
holder_of auth body db =
    if body.holder_mode == "creator"
    then elim auth [
      | root ↦ err (api_error validation_failed "root cannot be redemption holder")
      | user id ↦ ok (some id)
    ]
    else elim body.holder_phira_id [
      | none ↦ ok none
      | some pid ↦ id_of_user (find (λ u. int_eq u.phira_id pid) db.users)
    ]

abbrev pub or_object : Value → Value
or_object null = object end
or_object args = args

-- The row of the `INSERT`; `generated` is what `generate_code` returns.
abbrev pub new_coupon : ℕ → List ℕ → CreateCouponBody → ℕ → Option ℕ → Coupon
new_coupon fresh generated body max_uses holder = record {
  id = fresh;
  code = normalize (if is_empty (trim body.code) then generated else body.code);
  action_type = body.action_type;
  payload = or_object body.args;
  max_uses = max_uses;
  used_count = 0;
  holder_mode = body.holder_mode;
  holder_user_id = holder;
  note = trim body.note;
  expires_at = body.expires_at;
  is_revoked = false;
}

-- What `create` does before the `INSERT`: the number of uses and the holder.
pub checked : ℕ → Principal → CreateCouponBody → Db → Result (ℕ × Option ℕ)
unfolding validate_action positive_uses holder_of
checked now auth body db = do
  permitted ← require (some db.permissions) auth "coupon:create"
  valid ← validate_action body.action_type body.args
  moded ←
      refuse_if (not (body.holder_mode == "creator" || body.holder_mode == "manual"))
        (api_error validation_failed "invalid holder mode")
  max_uses ← positive_uses body.max_uses
  future ←
      refuse_if (is_past now body.expires_at)
        (api_error validation_failed "expiry must be in future")
  holder ← holder_of auth body db
  ok (max_uses, holder)

abbrev pub has_code : List ℕ → Coupon → Bool
has_code code c = text_eq c.code code

-- The `INSERT`, refused by the uniqueness of the codes.
pub insert_coupon : Coupon → Db → Result Coupon × Db
insert_coupon c db =
    if any (has_code c.code) db.coupons
    then (err (api_error resource_conflict "redemption code already exists"), db)
    else (ok c, record db { coupons = c ∷ db.coupons })

pub create : ℕ → List ℕ → ℕ → Principal → CreateCouponBody → Db → Result Coupon × Db
unfolding checked insert_coupon
create fresh generated now auth body db = elim (checked now auth body db) [
  | err e ↦ (err e, db)
  | ok (max_uses, holder) ↦ insert_coupon (new_coupon fresh generated body max_uses holder) db
]

abbrev pub is_coupon : ℕ → Coupon → Bool
is_coupon id c = c.id == id

abbrev pub revoked : Coupon → Coupon
revoked c = record c { is_revoked = true }

abbrev pub not_found : ApiError
not_found = api_error redemption_code_not_found "redemption code not found"

pub revoke : Principal → ℕ → Db → Result (Unit {0}) × Db
revoke auth id db = elim (require (some db.permissions) auth "coupon:revoke") [
  | err e ↦ (err e, db)
  | ok permitted ↦
      if not (any (λ c. is_coupon id c && not c.is_revoked) db.coupons)
      then (err not_found, db)
      else (
        ok tt,
        record db {
          coupons = update_where (λ c. is_coupon id c && not c.is_revoked) revoked db.coupons;
        },
      )
]

-- The `status` that `list` shows.
pub data CouponStatus : Type 0 where
  shown_revoked shown_expired shown_redeemed shown_active : CouponStatus

pub status_of : ℕ → Coupon → CouponStatus
status_of now c =
    if c.is_revoked
    then shown_revoked
    else if is_past now c.expires_at
    then shown_expired
    else if leb c.max_uses c.used_count
    then shown_redeemed
    else shown_active
