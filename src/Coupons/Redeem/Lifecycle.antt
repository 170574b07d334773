-- ===== src/Coupons/Redeem/Lifecycle.antt =====
-- A code from its creation to its redemption or revocation:
-- crates/ppb-server/src/admin/coupons.rs.
use phira_plus_backend.Prelude.{
  ℕ, ℤ, pos, negsuc, ◌≡◌, ◌∙◌, refl, sym, ap, subst, String, true, false, not, ◌&&◌, ◌||◌, Option,
  some, none, List, ◌∷◌, ◌==◌, nat_eq, string_eq, any, find, find-update_other, update_where, leb,
  nat_beq_iff, is_empty, arith, Bool-cases, inl, inr, if◌then◌else◌,
}
use phira_plus_backend.ErrorCode.{redemption_code_revoked, validation_failed}
use phira_plus_backend.Json.{Value, object, null, boolean, number, string, array}
use phira_plus_backend.ApiError.{Result, ok, err, Result-cases, api_error, bind_ok}
use phira_plus_backend.Permissions.{Principal, user, require}
use phira_plus_backend.Permissions.Validity.{text_eq_refl}
use phira_plus_backend.Coupons.{
  Coupon, CreateCouponBody, Db, Outcome, shown_active, shown_revoked, checked, create,
  insert_coupon, new_coupon, holder_of, positive_uses, or_object, status_of, is_past, normalize,
  has_code, is_coupon, refuse_if, validate_action, revoke, revoked,
}
use phira_plus_backend.Coupons.Redeem.{is_redemption, execute_action, finish, redeem}
use phira_plus_backend.Coupons.Redeem.Statuses.{may_hold, answer_if, by_status, redeem-by_status}

-- What a successful creation leaves.
record IsCreated (fresh : ℕ) (generated : List ℕ) (body : CreateCouponBody) (db after : Db)
    (c : Coupon) : Type 0 where
  max_uses : ℕ
  holder : Option ℕ
  row : new_coupon fresh generated body max_uses holder ≡ c
  stored : after ≡ record db { coupons = c ∷ db.coupons }
  positive : leb max_uses 0 ≡ false
  valid : validate_action body.action_type body.args ≡ ok tt

positive_uses-leb : (o : Option ℤ) (n : ℕ) → positive_uses o ≡ ok n → leb n 0 ≡ false
unfolding positive_uses
positive_uses-leb none n h = ground (arith, h)
positive_uses-leb (some (pos m)) n h = ground (arith, h)
positive_uses-leb (some (negsuc m)) n h = absurd (ground (arith, h))

checked-valid :
    (now : ℕ) (auth : Principal) (body : CreateCouponBody) (db : Db) (p : ℕ × Option ℕ)
    → checked now auth body db ≡ ok p
    → (validate_action body.action_type body.args ≡ ok tt) × (leb p.0 0 ≡ false)
unfolding checked
checked-valid now auth body db p h =
    let (done, permitted, h1) =
      bind_ok (require (some db.permissions) auth "coupon:create") _ p h in
    let (done1, valid, h2) = bind_ok (validate_action body.action_type body.args) _ p h1 in
    let (done2, moded, h3) =
      bind_ok
        (refuse_if (not (body.holder_mode == "creator" || body.holder_mode == "manual"))
          (api_error validation_failed "invalid holder mode"))
        _ p h2 in
    let (n, uses, h4) = bind_ok (positive_uses body.max_uses) _ p h3 in
    let (done3, future, h5) =
      bind_ok
        (refuse_if (is_past now body.expires_at)
          (api_error validation_failed "expiry must be in future"))
        _ p h4 in
    let (holder, held, last) = bind_ok (holder_of auth body db) _ p h5 in
    let same : (n, holder) ≡ p = ground (arith, last) in
    (valid, subst (λ q. leb q.0 0 ≡ false) same (positive_uses-leb body.max_uses n uses))

insert_coupon-ok :
    (c d : Coupon) (db : Db)
    → (insert_coupon c db).0 ≡ ok d
    → (c ≡ d) × ((insert_coupon c db).1 ≡ record db { coupons = c ∷ db.coupons })
unfolding insert_coupon
insert_coupon-ok c d db h = elim (Bool-cases (any (has_code c.code) db.coupons)) [
  | inl e ↦ absurd (ground (arith, e, h))
  | inr e ↦ (ground (arith, e, h), ground (arith, e))
]

create-IsCreated :
    (fresh : ℕ) (generated : List ℕ) (now : ℕ) (auth : Principal) (body : CreateCouponBody)
    (db : Db) (c : Coupon)
    → (create fresh generated now auth body db).0 ≡ ok c
    → IsCreated fresh generated body db (create fresh generated now auth body db).1 c
unfolding create
create-IsCreated fresh generated now auth body db c h =
    elim (Result-cases (checked now auth body db)) [
      | inr (x, e) ↦ absurd (ground (arith, e, h))
      | inl (p, e) ↦
          let new = new_coupon fresh generated body p.0 p.1 in
          let (same, after) = insert_coupon-ok new c db (ground (arith, e, h)) in
          let (valid, positive) = checked-valid now auth body db p e in
          record {
            max_uses = p.0;
            holder = p.1;
            row = same;
            stored = rw (create, e, after) (ap (λ d. record db { coupons = d ∷ db.coupons }) same);
            positive = positive;
            valid = valid;
          }
    ]

or_object-valid :
    (kind : String) (args : Value) → validate_action kind args ≡ ok tt → or_object args ≡ args
unfolding validate_action
or_object-valid kind null h = absurd (ground (arith, h))
or_object-valid kind (boolean b) h = refl
or_object-valid kind (number n) h = refl
or_object-valid kind (string s) h = refl
or_object-valid kind (object fs) h = refl
or_object-valid kind (array xs) h = refl

finish-ok :
    (uid : ℕ) (c : Coupon) (db : Db) (r : Result Outcome × Db) (result : Outcome)
    → r.0 ≡ ok result
    → (finish uid c db r).0 ≡ ok (c.action_type, result)
unfolding finish
finish-ok uid c db (err e, after) result h = absurd (ground (arith, h))
finish-ok uid c db (ok x, after) result h = ground (arith, h)

answer_if-ok :
    (parse_uuid : String → Option ℕ) (fresh uid : ℕ) (c : Coupon) (db : Db) (result : Outcome)
    → any (is_redemption c.id uid) db.redemptions ≡ false
    → validate_action c.action_type c.payload ≡ ok tt
    → (execute_action parse_uuid fresh uid c.id c.action_type c.payload db).0 ≡ ok result
    → (answer_if parse_uuid fresh uid c db true).0 ≡ ok (c.action_type, result)
unfolding answer_if
answer_if-ok parse_uuid fresh uid c db result unused valid h =
    rw (answer_if, unused, valid)
      (finish-ok uid c db (execute_action parse_uuid fresh uid c.id c.action_type c.payload db)
        result h)

-- A code that was just created is redeemed, under any spelling that normalizes to it, by a user
-- whom its holder does not keep out and who has not redeemed it, until it expires: the answer is
-- the outcome of its action, where that has one.
pub create-redeem :
    (fresh : ℕ) (generated : List ℕ) (now : ℕ) (auth : Principal) (body : CreateCouponBody)
    (db : Db) (c : Coupon) (parse_uuid : String → Option ℕ) (new later uid : ℕ) (text : List ℕ)
    (result : Outcome)
    → (create fresh generated now auth body db).0 ≡ ok c
    → normalize text ≡ c.code
    → is_empty c.code ≡ false
    → is_past later c.expires_at ≡ false
    → may_hold (c.holder_mode == "creator") c.holder_user_id uid ≡ true
    → any (is_redemption c.id uid) db.redemptions ≡ false
    → (execute_action parse_uuid new uid c.id c.action_type c.payload
        (create fresh generated now auth body db).1).0
      ≡ ok result
    → (redeem parse_uuid new later (user uid) text (create fresh generated now auth body db).1).0
      ≡ ok (c.action_type, result)
unfolding status_of
create-redeem fresh generated now auth body db c parse_uuid new later uid text result h spelled full
      lasts held unused ran =
    let made = create-IsCreated fresh generated now auth body db c h in
    let after = (create fresh generated now auth body db).1 in
    let full' = ap is_empty spelled ∙ full in
    let found : find (has_code (normalize text)) after.coupons ≡ some c =
      rw (made.stored, spelled, text_eq_refl c.code) refl in
    let young = sym (ap (λ d. d.is_revoked) made.row) in
    let free = sym (ap (λ d. leb d.max_uses d.used_count) made.row) ∙ made.positive in
    let active : status_of later c ≡ shown_active = rw (status_of, young, lasts, free) refl in
    let valid =
      subst (λ d. validate_action d.action_type d.payload ≡ ok tt) made.row
        (ap (validate_action body.action_type)
            (or_object-valid body.action_type body.args made.valid)
          ∙ made.valid) in
    let unused' = ap (λ d. any (is_redemption c.id uid) d.redemptions) made.stored ∙ unused in
    ap (λ r. r.0) (redeem-by_status parse_uuid new later uid text c after full' found)
    ∙ ap
        (λ s.
          (by_status s
            (answer_if parse_uuid new uid c after
              (may_hold (c.holder_mode == "creator") c.holder_user_id uid))
            after).0)
        active
    ∙ ap (λ b. (answer_if parse_uuid new uid c after b).0) held
    ∙ answer_if-ok parse_uuid new uid c after result unused' valid ran

revoke-withdrawn :
    (auth : Principal) (id : ℕ) (db : Db)
    → (revoke auth id db).0 ≡ ok tt
    → (revoke auth id db).1.coupons
      ≡ update_where (λ c. is_coupon id c && not c.is_revoked) revoked db.coupons
unfolding revoke
revoke-withdrawn auth id db h =
    elim (Result-cases (require (some db.permissions) auth "coupon:revoke")) [
      | inr (x, e) ↦ absurd (ground (arith, e, h))
      | inl (done, e) ↦
          elim (Bool-cases (any (λ c. is_coupon id c && not c.is_revoked) db.coupons)) [
            | inr n ↦ absurd (ground (arith, e, n, h))
            | inl y ↦ rw (revoke, e, y) refl
          ]
    ]

-- Once a code is revoked, whoever redeems it, under whatever spelling and at whatever time, is
-- refused with RedemptionCodeRevoked, and nothing changes.
pub revoke-redeem :
    (auth : Principal) (id : ℕ) (db : Db) (parse_uuid : String → Option ℕ) (fresh now uid : ℕ)
    (text : List ℕ) (c : Coupon)
    → (revoke auth id db).0 ≡ ok tt
    → is_empty (normalize text) ≡ false
    → find (has_code (normalize text)) db.coupons ≡ some c
    → c.id ≡ id
    → redeem parse_uuid fresh now (user uid) text (revoke auth id db).1
      ≡ (err (api_error redemption_code_revoked "redemption code revoked"), (revoke auth id db).1)
unfolding status_of
revoke-redeem auth id db parse_uuid fresh now uid text c h full found mine =
    let after = (revoke auth id db).1 in
    let q = λ (d : Coupon). is_coupon id d && not d.is_revoked in
    let found' =
      ap (find (has_code (normalize text))) (revoke-withdrawn auth id db h)
      ∙ find-update_other (has_code (normalize text)) q revoked db.coupons c (λ x. refl) found in
    let d = if q c then revoked c else c in
    let gone : d.is_revoked ≡ true = ground (arith, (nat_beq_iff c.id id).1 mine) in
    let shown : status_of now d ≡ shown_revoked = rw (status_of, gone) refl in
    redeem-by_status parse_uuid fresh now uid text d after full found'
    ∙ ap
        (λ s.
          by_status s
            (answer_if parse_uuid fresh uid d after
              (may_hold (d.holder_mode == "creator") d.holder_user_id uid))
            after)
        shown
