-- ===== src/Coupons/Redeem/Tests.antt =====
-- Root makes a code that unlocks an account, and users redeem it.
use phira_plus_backend.Prelude.{
  ℕ, String, ◌≡◌, refl, false, Option, none, some, [], ◌∷◌, codes, arith, pos, find, is_empty,
  string_eq, nat_eq,
}
use phira_plus_backend.Json.{object, end}
use phira_plus_backend.ErrorCode.{redemption_code_revoked, redemption_code_limit_reached}
use phira_plus_backend.ApiError.{ok, err, api_error}
use phira_plus_backend.Permissions.{root, user, require}
use phira_plus_backend.Permissions.Resolution.{in_admin_scope}
use phira_plus_backend.Coupons.{
  Coupon, CreateCouponBody, Db, create, normalize, revoke, unlocked, status_of, has_code,
}
use phira_plus_backend.Coupons.Redeem.{redeem, execute_action}
use phira_plus_backend.Coupons.Redeem.Counting.{
  IsCounted, Reach, here, next, created, redeemed, Reach-IsCounted,
}
use phira_plus_backend.Coupons.Redeem.Privilege.{redeem-in_admin_scope}
use phira_plus_backend.Coupons.Redeem.Statuses.{
  answer_active, by_status, may_hold, redeem-by_status,
}
use phira_plus_backend.Coupons.Redeem.Lifecycle.{create-redeem, revoke-redeem}

abbrev no_uuids : String → Option ℕ
no_uuids s = none

abbrev empty : Db
empty = record {
  coupons = [];
  redemptions = [];
  permissions = record { groups = []; members = []; grants = []; users = [] };
  users = record { id = 7; phira_id = pos 42; status = "disabled" } ∷ [];
  tasks = [];
  events = [];
  notifications = [];
}

abbrev body : CreateCouponBody
body = record {
  code = codes " gift ";
  action_type = "account_unlock";
  args = object end;
  holder_mode = "manual";
  holder_phira_id = none;
  note = [];
  max_uses = none;
  expires_at = none;
}

abbrev gift : Coupon
gift = record {
  id = 1;
  code = codes "GIFT";
  action_type = "account_unlock";
  payload = object end;
  max_uses = 1;
  used_count = 0;
  holder_mode = "manual";
  holder_user_id = none;
  note = [];
  expires_at = none;
  is_revoked = false;
}

gift_made : (create 1 [] 100 root body empty).0 ≡ ok gift
unfolding create require normalize
gift_made = refl

abbrev after : Db
after = (create 1 [] 100 root body empty).1

create-redeem_example :
    (redeem no_uuids 9 200 (user 7) (codes "Gift") after).0 ≡ ok ("account_unlock", unlocked)
unfolding create require normalize execute_action may_hold
create-redeem_example =
    create-redeem 1 [] 100 root body empty gift no_uuids 9 200 7 (codes "Gift") unlocked gift_made
      refl refl refl refl refl refl

abbrev stored : Db
stored = record empty { coupons = gift ∷ [] }

gift_found : find (has_code (normalize (codes "gift"))) stored.coupons ≡ some gift
unfolding normalize
gift_found = refl

gift_spelled : is_empty (normalize (codes "gift")) ≡ false
unfolding normalize
gift_spelled = refl

redeem-by_status_example :
    redeem no_uuids 9 200 (user 7) (codes "gift") stored
    ≡ by_status (status_of 200 gift) (answer_active no_uuids 9 7 gift stored) stored
redeem-by_status_example =
    redeem-by_status no_uuids 9 200 7 (codes "gift") gift stored gift_spelled gift_found

-- Its one use is gone.
abbrev used_up : Db
used_up = record empty { coupons = record gift { used_count = 1 } ∷ [] }

refused :
    (redeem no_uuids 9 200 (user 7) (codes "gift") used_up).0
    ≡ err (api_error redemption_code_limit_reached "redemption code limit reached")
unfolding redeem
refused = refl

revoke_done : (revoke root 1 stored).0 ≡ ok tt
unfolding revoke require
revoke_done = refl

revoke-redeem_example :
    redeem no_uuids 9 200 (user 7) (codes "gift") (revoke root 1 stored).1
    ≡ (err (api_error redemption_code_revoked "redemption code revoked"), (revoke root 1 stored).1)
revoke-redeem_example =
    revoke-redeem root 1 stored no_uuids 9 200 7 (codes "gift") gift revoke_done gift_spelled
      gift_found refl

reached :
    Reach no_uuids
      (redeem no_uuids 9 200 (user 7) (codes "gift") (create 1 [] 100 root body empty).1).1
reached =
    next (next (here empty refl refl) (created 1 [] 100 root body refl))
      (redeemed 9 200 (user 7) (codes "gift"))

Reach-IsCounted_example :
    IsCounted (redeem no_uuids 9 200 (user 7) (codes "gift") (create 1 [] 100 root body empty).1).1
Reach-IsCounted_example = Reach-IsCounted reached

redeem-in_admin_scope_example :
    in_admin_scope (redeem no_uuids 9 200 (user 7) (codes "gift") stored).1.permissions 7
    ≡ in_admin_scope stored.permissions 7
redeem-in_admin_scope_example =
    redeem-in_admin_scope no_uuids 9 200 (user 7) (codes "gift") stored 7 (record {
      distinct = λ id. omega arith;
      names = λ name. omega arith;
      one_default = omega arith;
      ordinary = refl;
    })
