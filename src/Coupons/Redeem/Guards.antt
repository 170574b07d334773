-- ===== src/Coupons/Redeem/Guards.antt =====
-- What a code that may be redeemed has passed: `redeem` of
-- crates/ppb-server/src/admin/coupons.rs.
use phira_plus_backend.Prelude.{
  ℕ, ◌≡◌, Bool, false, not, ◌&&◌, any, leb, ◌==◌, nat_eq, string_eq, is_some, arith,
}
use phira_plus_backend.ApiError.{ApiError, ok, then_ok}
use phira_plus_backend.Coupons.{Coupon, Db, is_past, refuse_if, validate_action}
use phira_plus_backend.Coupons.Redeem.{is_held_by, is_redemption, redeemable}

pub refuse_if-ok : (b : Bool) (e : ApiError) → refuse_if b e ≡ ok tt → b ≡ false
refuse_if-ok b e h = ground (arith, h)

pub record IsRedeemable (now uid : ℕ) (c : Coupon) (db : Db) : Type 0 where
  pub not_revoked : c.is_revoked ≡ false
  pub not_expired : is_past now c.expires_at ≡ false
  pub below : leb c.max_uses c.used_count ≡ false
  pub held : (is_some c.holder_user_id && not (is_held_by uid c.holder_user_id)) ≡ false
  pub created : (c.holder_mode == "creator" && not (is_held_by uid c.holder_user_id)) ≡ false
  pub unused : any (is_redemption c.id uid) db.redemptions ≡ false
  pub valid : validate_action c.action_type c.payload ≡ ok tt

pub redeemable-IsRedeemable :
    (now uid : ℕ) (c : Coupon) (db : Db)
    → redeemable now uid c db ≡ ok tt
    → IsRedeemable now uid c db
unfolding redeemable
redeemable-IsRedeemable now uid c db h =
    let (a, h1) = then_ok _ _ tt h in
    let (b, h2) = then_ok _ _ tt h1 in
    let (d, h3) = then_ok _ _ tt h2 in
    let (e, h4) = then_ok _ _ tt h3 in
    let (f, h5) = then_ok _ _ tt h4 in
    let (g, last) = then_ok _ _ tt h5 in
    record {
      not_revoked = refuse_if-ok _ _ a;
      not_expired = refuse_if-ok _ _ b;
      below = refuse_if-ok _ _ d;
      held = refuse_if-ok _ _ e;
      created = refuse_if-ok _ _ f;
      unused = refuse_if-ok _ _ g;
      valid = last;
    }
