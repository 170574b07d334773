-- ===== src/Coupons/Redeem/Rows.antt =====
-- Rows of codes and of redemptions, and what the actions of a code leave alone:
-- crates/ppb-server/src/admin/coupons.rs.
use phira_plus_backend.Prelude.{
  ℕ, ◌≤◌, ◌≡◌, refl, subst, String, Bool, true, false, not, ◌&&◌, ◌||◌, Option, List, [], ◌∷◌, ◌==◌,
  nat_eq, nat_beq, nat_beq_iff, any, every, update_where, count_where, count_where-of_none, leb,
  arith, Bool-cases, inl, inr,
}
use phira_plus_backend.Json.{Value}
use phira_plus_backend.ApiError.{Result-cases}
use phira_plus_backend.Permissions.{insert_member}
use phira_plus_backend.Coupons.{Coupon, Db, Redemption, is_coupon}
use phira_plus_backend.Coupons.Redeem.{
  alert_admins, assign_role, bump, execute_action, is_redemption, joined_group, notify_self,
  role_group, unlock_account,
}

abbrev pub of_coupon : ℕ → Redemption → Bool
of_coupon id r = r.coupon_id == id

-- The count of a code's uses is the number of its redemptions, within its limit.
abbrev pub fits : List Redemption → Coupon → Bool
fits rs c = nat_beq c.used_count (count_where (of_coupon c.id) rs) && leb c.used_count c.max_uses

-- The tables of codes are the same.
pub record SameCodes (before after : Db) : Type 0 where
  pub coupons : after.coupons ≡ before.coupons
  pub redemptions : after.redemptions ≡ before.redemptions

pub every-fits-new :
    (r : Redemption) (rs : List Redemption) (cs : List Coupon)
    → every (fits rs) cs ≡ true
    → every (λ x. not (is_coupon r.coupon_id x) || not (leb x.max_uses x.used_count)) cs ≡ true
    → every (fits (r ∷ rs)) (update_where (is_coupon r.coupon_id) bump cs) ≡ true
every-fits-new r rs [] h free = refl
every-fits-new r rs (x ∷ cs) h free =
    ground
      (arith, every-fits-new r rs cs, nat_beq_iff x.id r.coupon_id, nat_beq_iff r.coupon_id x.id)

pub every-update_same :
    (p q : Coupon → Bool) (f : Coupon → Coupon) (cs : List Coupon)
    → ((x : Coupon) → p (f x) ≡ p x)
    → every p (update_where q f cs) ≡ every p cs
every-update_same p q f [] same = refl
every-update_same p q f (x ∷ cs) same = ground (arith, same x, every-update_same p q f cs same)

pub SameCodes-refl : (db : Db) → SameCodes db db
SameCodes-refl db = record { coupons = refl; redemptions = refl }

joined_group-SameCodes : (uid : ℕ) (g : _) (db : Db) → SameCodes db (joined_group uid g db).1
unfolding joined_group
joined_group-SameCodes uid g db = elim (Result-cases (insert_member g.id uid db.permissions).0) [
  | inl (done, e) ↦ rw (joined_group, e) (record { coupons = refl; redemptions = refl })
  | inr (x, e) ↦ rw (joined_group, e) (SameCodes-refl db)
]

assign_role-SameCodes :
    (parse_uuid : String → Option ℕ) (uid : ℕ) (args : Value) (db : Db)
    → SameCodes db (assign_role parse_uuid uid args db).1
unfolding assign_role
assign_role-SameCodes parse_uuid uid args db =
    elim (Result-cases (role_group parse_uuid args db.permissions)) [
      | inl (g, e) ↦ rw (assign_role, e) (joined_group-SameCodes uid g db)
      | inr (x, e) ↦ rw (assign_role, e) (SameCodes-refl db)
    ]

pub execute_action-SameCodes :
    (parse_uuid : String → Option ℕ) (fresh uid cid : ℕ) (kind : String) (args : Value) (db : Db)
    → SameCodes db (execute_action parse_uuid fresh uid cid kind args db).1
unfolding execute_action unlock_account alert_admins notify_self
execute_action-SameCodes parse_uuid fresh uid cid kind args db =
    let role = assign_role-SameCodes parse_uuid uid args db in
    record {
      coupons = ground (arith, role.coupons);
      redemptions = ground (arith, role.redemptions);
    }

pub once-new :
    (r : Redemption) (rs : List Redemption) (id uid : ℕ)
    → any (is_redemption r.coupon_id r.user_id) rs ≡ false
    → count_where (is_redemption id uid) rs ≤ 1
    → count_where (is_redemption id uid) (r ∷ rs) ≤ 1
once-new r rs id uid n le = elim (Bool-cases (is_redemption id uid r)) [
  | inr e ↦ ground (arith, e, le)
  | inl e ↦
      let here = (nat_beq_iff r.coupon_id id).0 (ground (arith, e)) in
      let by = (nat_beq_iff r.user_id uid).0 (ground (arith, e)) in
      let n' =
        subst (λ i. any (is_redemption i uid) rs ≡ false) here
          (subst (λ u. any (is_redemption r.coupon_id u) rs ≡ false) by n) in
      ground (arith, e, count_where-of_none (is_redemption id uid) rs n')
]
