-- ===== src/Coupons/Redeem/Counting.antt =====
-- The uses of codes, through every sequence of the operations of
-- crates/ppb-server/src/admin/coupons.rs.
use phira_plus_backend.Prelude.{
  every-found, ℕ, ◌≤◌, ◌≡◌, ◌∙◌, refl, sym, ap, subst, String, Bool, true, false, not, ◌&&◌, ◌||◌,
  Option, some, List, [], nat_eq, nat_beq_iff, any, every, find, update_where, count_where,
  count_where-of_none, any-found, any-update_where, count_where-update_same, leb, is_empty, arith,
  Bool-cases, Option-cases, inl, inr,
}
use phira_plus_backend.ApiError.{Result, ok, err, Result-cases}
use phira_plus_backend.Permissions.{Principal, root, user, require}
use phira_plus_backend.Coupons.{
  Coupon, CreateCouponBody, Db, Outcome, checked, create, insert_coupon, has_code, is_coupon,
  new_coupon, normalize, revoke, revoked,
}
use phira_plus_backend.Coupons.Redeem.Rows.{
  SameCodes, every-fits-new, every-update_same, execute_action-SameCodes, fits, of_coupon, once-new,
}
use phira_plus_backend.Coupons.Redeem.Guards.{redeemable-IsRedeemable}
use phira_plus_backend.Coupons.Redeem.{
  bump, finish, is_redemption, record_use, redeem, redeem_row, redeemable, redemption,
}

-- `placed`: a redemption is of a code that there is.
pub record IsCounted (db : Db) : Type 0 where
  pub unique : (id : ℕ) → count_where (is_coupon id) db.coupons ≤ 1
  pub counted : every (fits db.redemptions) db.coupons ≡ true
  pub once : (id uid : ℕ) → count_where (is_redemption id uid) db.redemptions ≤ 1
  pub placed :
      (id : ℕ) → any (is_coupon id) db.coupons ≡ false → any (of_coupon id) db.redemptions ≡ false

-- One call, or a change by another part of the program, which leaves the two tables alone.
pub data Step (parse_uuid : String → Option ℕ) (db : Db) : Db → Type 0 where
  created :
      (fresh : ℕ) (generated : List ℕ) (now : ℕ) (auth : Principal) (body : CreateCouponBody)
      → any (is_coupon fresh) db.coupons ≡ false
      → Step parse_uuid db (create fresh generated now auth body db).1
  withdrawn : (auth : Principal) (id : ℕ) → Step parse_uuid db (revoke auth id db).1
  redeemed :
      (fresh now : ℕ) (auth : Principal) (code : List ℕ)
      → Step parse_uuid db (redeem parse_uuid fresh now auth code db).1
  elsewhere : {after : Db} → SameCodes db after → Step parse_uuid db after

pub data Reach (parse_uuid : String → Option ℕ) : Db → Type 0 where
  here : (db : Db) → db.coupons ≡ [] → db.redemptions ≡ [] → Reach parse_uuid db
  next : {a b : Db} → Reach parse_uuid a → Step parse_uuid a b → Reach parse_uuid b

IsCounted-same : {a b : Db} → SameCodes a b → IsCounted a → IsCounted b
IsCounted-same {a} {b} s v = record {
  unique = λ id. rw s.coupons (v.unique id);
  counted = rw (s.coupons, s.redemptions) v.counted;
  once = λ id uid. rw s.redemptions (v.once id uid);
  placed = λ id h. rw s.redemptions (v.placed id (sym (ap (any (is_coupon id)) s.coupons) ∙ h));
}

insert_coupon-IsCounted :
    (c : Coupon) (db : Db)
    → any (is_coupon c.id) db.coupons ≡ false
    → c.used_count ≡ 0
    → IsCounted db
    → IsCounted (insert_coupon c db).1
unfolding insert_coupon
insert_coupon-IsCounted c db n z v = elim (Bool-cases (any (has_code c.code) db.coupons)) [
  | inl e ↦ rw (insert_coupon, e) v
  | inr e ↦
      let none_yet = count_where-of_none (of_coupon c.id) db.redemptions (v.placed c.id n) in
      rw (insert_coupon, e)
        (record {
          unique = λ id. ground (
            arith,
            v.unique id,
            nat_beq_iff c.id id,
            ap (λ i. any (is_coupon i) db.coupons),
            n,
            count_where-of_none (is_coupon c.id) db.coupons n,
          );
          counted = ground (arith, none_yet, z, v.counted);
          once = v.once;
          placed = λ id h. v.placed id (ground (arith, h));
        })
]

create-IsCounted :
    (fresh : ℕ) (generated : List ℕ) (now : ℕ) (auth : Principal) (body : CreateCouponBody)
    (db : Db)
    → any (is_coupon fresh) db.coupons ≡ false
    → IsCounted db
    → IsCounted (create fresh generated now auth body db).1
unfolding create
create-IsCounted fresh generated now auth body db n v =
    elim (Result-cases (checked now auth body db)) [
      | inl (p, e) ↦
          rw (create, e)
            (insert_coupon-IsCounted (new_coupon fresh generated body p.0 p.1) db n refl v)
      | inr (x, e) ↦ rw (create, e) v
    ]

withdrawn-IsCounted :
    (q : Coupon → Bool) (db : Db)
    → IsCounted db
    → IsCounted (record db { coupons = update_where q revoked db.coupons })
withdrawn-IsCounted q db v = record {
  unique =
      λ i. rw (count_where-update_same (is_coupon i) q revoked db.coupons (λ x. refl)) (v.unique i);
  counted = every-update_same (fits db.redemptions) q revoked db.coupons (λ x. refl) ∙ v.counted;
  once = v.once;
  placed =
      λ i h. v.placed i (sym (any-update_where (is_coupon i) q revoked db.coupons (λ x. refl)) ∙ h);
}

revoke-IsCounted :
    (auth : Principal) (id : ℕ) (db : Db) → IsCounted db → IsCounted (revoke auth id db).1
unfolding revoke
revoke-IsCounted auth id db v =
    elim (Result-cases (require (some db.permissions) auth "coupon:revoke")) [
      | inr (x, e) ↦ rw (revoke, e) v
      | inl (done, e) ↦
          elim (Bool-cases (any (λ c. is_coupon id c && not c.is_revoked) db.coupons)) [
            | inr n ↦ rw (revoke, e, n) v
            | inl y ↦
                rw (revoke, e, y)
                  (withdrawn-IsCounted (λ c. is_coupon id c && not c.is_revoked) db v)
          ]
    ]

record_use-IsCounted :
    (uid : ℕ) (c : Coupon) (result : Outcome) (db : Db)
    → every (λ x. not (is_coupon c.id x) || not (leb x.max_uses x.used_count)) db.coupons ≡ true
    → any (is_redemption c.id uid) db.redemptions ≡ false
    → any (is_coupon c.id) db.coupons ≡ true
    → IsCounted db
    → IsCounted (record_use uid c result db)
unfolding record_use
record_use-IsCounted uid c result db free unused there v = record {
  unique = λ id.
      rw (count_where-update_same (is_coupon id) (is_coupon c.id) bump db.coupons (λ x. refl))
        (v.unique id);
  counted = every-fits-new (redemption uid c result) db.redemptions db.coupons v.counted free;
  once = λ id other.
      once-new (redemption uid c result) db.redemptions id other unused (v.once id other);
  placed = λ id h.
      let h' =
        sym (any-update_where (is_coupon id) (is_coupon c.id) bump db.coupons (λ x. refl)) ∙ h in
      elim (Bool-cases (is_coupon id c)) [
        | inr e ↦ ground (arith, e, v.placed id h')
        | inl e ↦
            let same = (nat_beq_iff c.id id).0 e in
            absurd (ground (arith, subst (λ i. any (is_coupon i) db.coupons ≡ true) same there, h'))
      ];
}

finish-IsCounted :
    (uid : ℕ) (p : Coupon → Bool) (c : Coupon) (db : Db) (r : Result Outcome × Db)
    → find p db.coupons ≡ some c
    → leb c.max_uses c.used_count ≡ false
    → any (is_redemption c.id uid) db.redemptions ≡ false
    → SameCodes db r.1
    → IsCounted db
    → IsCounted (finish uid c db r).1
unfolding finish
finish-IsCounted uid p c db (err e, after) found below unused s v = v
finish-IsCounted uid p c db (ok result, after) found below unused s v =
    let found' = ap (find p) s.coupons ∙ found in
    let w = IsCounted-same s v in
    record_use-IsCounted uid c result after
      (every-found (λ x. x.id) p (λ x. not (leb x.max_uses x.used_count)) after.coupons c found'
        (w.unique c.id) (ground (arith, below)))
      (ap (any (is_redemption c.id uid)) s.redemptions ∙ unused)
      (any-found p (is_coupon c.id) after.coupons c found' ((nat_beq_iff c.id c.id).1 refl)) w

redeem_row-IsCounted :
    (parse_uuid : String → Option ℕ) (fresh now uid : ℕ) (p : Coupon → Bool) (c : Coupon) (db : Db)
    → find p db.coupons ≡ some c
    → IsCounted db
    → IsCounted (redeem_row parse_uuid fresh now uid c db).1
unfolding redeem_row
redeem_row-IsCounted parse_uuid fresh now uid p c db found v =
    elim (Result-cases (redeemable now uid c db)) [
      | inr (x, e) ↦ rw (redeem_row, e) v
      | inl (done, e) ↦
          let free = redeemable-IsRedeemable now uid c db e in
          rw (redeem_row, e)
            (finish-IsCounted uid p c db _ found free.below free.unused
              (execute_action-SameCodes parse_uuid fresh uid c.id c.action_type c.payload db) v)
    ]

redeem-IsCounted :
    (parse_uuid : String → Option ℕ) (fresh now : ℕ) (auth : Principal) (code : List ℕ) (db : Db)
    → IsCounted db
    → IsCounted (redeem parse_uuid fresh now auth code db).1
unfolding redeem
redeem-IsCounted parse_uuid fresh now root code db v = v
redeem-IsCounted parse_uuid fresh now (user uid) code db v =
    elim (Bool-cases (is_empty (normalize code))) [
      | inl e ↦ rw (redeem, e) v
      | inr e ↦ elim (Option-cases (find (has_code (normalize code)) db.coupons)) [
        | inl n ↦ rw (redeem, e, n) v
        | inr (c, found) ↦
            rw (redeem, e, found)
              (redeem_row-IsCounted parse_uuid fresh now uid (has_code (normalize code)) c db found
                v)
      ]
    ]

Step-IsCounted :
    {parse_uuid : String → Option ℕ} {a b : Db} → Step parse_uuid a b → IsCounted a → IsCounted b
Step-IsCounted {parse_uuid} {a} (created fresh generated now auth body n) v =
    create-IsCounted fresh generated now auth body a n v
Step-IsCounted {parse_uuid} {a} (withdrawn auth id) v = revoke-IsCounted auth id a v
Step-IsCounted {parse_uuid} {a} (redeemed fresh now auth code) v =
    redeem-IsCounted parse_uuid fresh now auth code a v
Step-IsCounted (elsewhere s) v = IsCounted-same s v

-- In every reachable state the count of each code's uses is the number of its redemptions and at
-- most its limit, and no user has redeemed a code twice.
pub Reach-IsCounted :
    {parse_uuid : String → Option ℕ} {db : Db} → Reach parse_uuid db → IsCounted db
Reach-IsCounted (here db none_made none_used) = record {
  unique = λ id. rw none_made (omega arith);
  counted = rw none_made refl;
  once = λ id uid. rw none_used (omega arith);
  placed = λ id h. rw none_used refl;
}
Reach-IsCounted (next p st) = Step-IsCounted st (Reach-IsCounted p)
