-- ===== src/Coupons/Redeem/Privilege.antt =====
-- No code makes an administrator: the arm `account_role` of `execute_action` of
-- crates/ppb-server/src/admin/coupons.rs, with the groups of crates/ppb-server/src/permissions.
use phira_plus_backend.Prelude.{
  ℕ, ◌≡◌, ◌∙◌, refl, sym, ap, String, Bool, false, not, ◌&&◌, ◌||◌, Option, some, none, List,
  nat_eq, any, find, every-found, any-every, is_empty, codes, arith, Bool-cases, Option-cases, inl,
  inr,
}
use phira_plus_backend.Json.{Value}
use phira_plus_backend.ApiError.{Result, ok, err, Result-cases, bind_ok}
use phira_plus_backend.Permissions
use phira_plus_backend.Permissions.{
  Principal, root, user, Group, has_id, has_name, is_admin_scope, insert_member,
}
use phira_plus_backend.Permissions.Resolution.{in_admin_scope, insert_member-in_admin_scope}
use phira_plus_backend.Permissions.Validity.{IsSound}
use phira_plus_backend.Coupons.{Coupon, Db, Outcome, normalize, has_code}
use phira_plus_backend.Coupons.Redeem.{
  or_text, group_with, is_administrators, role_group, target_group, joinable, joined_group,
  assign_role, execute_action, unlock_account, alert_admins, notify_self, redeemable, record_use,
  finish, redeem_row, redeem,
}

-- The group was found in the table by some test.
target_group-found :
    (parse_uuid : String → Option ℕ) (id name : Option String) (db : Permissions.Db) (g : Group)
    → target_group parse_uuid id name db ≡ ok (some g)
    → (p : Group → Bool) × (find p db.groups ≡ some g)
unfolding target_group group_with
target_group-found parse_uuid none name db g h =
    (has_name (codes (or_text "" name)), ground (arith, h))
target_group-found parse_uuid (some raw) name db g h = elim (Option-cases (parse_uuid raw)) [
  | inl e ↦ absurd (ground (arith, e, h))
  | inr (id, e) ↦ (has_id id, ground (arith, e, h))
]

joinable-ordinary :
    (o : Option Group) (g : Group) → joinable o ≡ ok g → (o ≡ some g) × (is_admin_scope g ≡ false)
unfolding joinable
joinable-ordinary none g h = absurd (ground (arith, h))
joinable-ordinary (some x) g h = elim (Bool-cases (is_admin_scope x || is_administrators x)) [
  | inl e ↦ absurd (ground (arith, e, h))
  | inr e ↦
      let same : x ≡ g = ground (arith, e, h) in
      (ap some same, sym (ap is_admin_scope same) ∙ ground (arith, e))
]

-- A group that `account_role` joins shares its id with no `admin_scope` group.
role_group-ordinary :
    (parse_uuid : String → Option ℕ) (args : Value) (db : Permissions.Db) (g : Group)
    → IsSound db.groups
    → role_group parse_uuid args db ≡ ok g
    → any (λ x. has_id g.id x && is_admin_scope x) db.groups ≡ false
unfolding role_group
role_group-ordinary parse_uuid args db g sound h =
    let (o, target, last) = bind_ok (target_group parse_uuid _ _ db) joinable g h in
    let (same, ordinary) = joinable-ordinary o g last in
    let (p, found) = target_group-found parse_uuid _ _ db g (target ∙ ap ok same) in
    any-every (has_id g.id) is_admin_scope db.groups (
      every-found (λ x. x.id) p (λ x. not (is_admin_scope x)) db.groups g found
        (sound.distinct g.id) (ground (arith, ordinary)))

abbrev SameAdmins : Db → Db → Type 0
SameAdmins before after =
    (v : ℕ) → in_admin_scope after.permissions v ≡ in_admin_scope before.permissions v

joined_group-SameAdmins :
    (uid : ℕ) (g : Group) (db : Db)
    → any (λ x. has_id g.id x && is_admin_scope x) db.permissions.groups ≡ false
    → SameAdmins db (joined_group uid g db).1
unfolding joined_group
joined_group-SameAdmins uid g db h v =
    elim (Result-cases (insert_member g.id uid db.permissions).0) [
      | inl (done, e) ↦
          rw (joined_group, e) (insert_member-in_admin_scope g.id uid v db.permissions h)
      | inr (x, e) ↦ rw (joined_group, e) refl
    ]

assign_role-SameAdmins :
    (parse_uuid : String → Option ℕ) (uid : ℕ) (args : Value) (db : Db)
    → IsSound db.permissions.groups
    → SameAdmins db (assign_role parse_uuid uid args db).1
unfolding assign_role
assign_role-SameAdmins parse_uuid uid args db sound v =
    elim (Result-cases (role_group parse_uuid args db.permissions)) [
      | inl (g, e) ↦
          rw (assign_role, e)
            (joined_group-SameAdmins uid g db
              (role_group-ordinary parse_uuid args db.permissions g sound e) v)
      | inr (x, e) ↦ rw (assign_role, e) refl
    ]

execute_action-SameAdmins :
    (parse_uuid : String → Option ℕ) (fresh uid cid : ℕ) (kind : String) (args : Value) (db : Db)
    → IsSound db.permissions.groups
    → SameAdmins db (execute_action parse_uuid fresh uid cid kind args db).1
unfolding execute_action unlock_account alert_admins notify_self
execute_action-SameAdmins parse_uuid fresh uid cid kind args db sound v =
    ground (arith, assign_role-SameAdmins parse_uuid uid args db sound v)

finish-SameAdmins :
    (uid : ℕ) (c : Coupon) (db : Db) (r : Result Outcome × Db)
    → SameAdmins db r.1
    → SameAdmins db (finish uid c db r).1
unfolding finish record_use
finish-SameAdmins uid c db (err e, after) s v = refl
finish-SameAdmins uid c db (ok result, after) s v = s v

redeem_row-SameAdmins :
    (parse_uuid : String → Option ℕ) (fresh now uid : ℕ) (c : Coupon) (db : Db)
    → IsSound db.permissions.groups
    → SameAdmins db (redeem_row parse_uuid fresh now uid c db).1
unfolding redeem_row
redeem_row-SameAdmins parse_uuid fresh now uid c db sound v =
    elim (Result-cases (redeemable now uid c db)) [
      | inr (x, e) ↦ rw (redeem_row, e) refl
      | inl (done, e) ↦
          rw (redeem_row, e)
            (finish-SameAdmins uid c db _
              (execute_action-SameAdmins parse_uuid fresh uid c.id c.action_type c.payload db sound)
              v)
    ]

-- Whatever code is redeemed, by whomever, with whatever result, no user enters or leaves the
-- `admin_scope` groups, where the table of groups is sound, as it is in every reachable state.
pub redeem-in_admin_scope :
    (parse_uuid : String → Option ℕ) (fresh now : ℕ) (auth : Principal) (code : List ℕ) (db : Db)
    (v : ℕ)
    → IsSound db.permissions.groups
    → in_admin_scope (redeem parse_uuid fresh now auth code db).1.permissions v
      ≡ in_admin_scope db.permissions v
unfolding redeem
redeem-in_admin_scope parse_uuid fresh now root code db v sound = refl
redeem-in_admin_scope parse_uuid fresh now (user uid) code db v sound =
    elim (Bool-cases (is_empty (normalize code))) [
      | inl e ↦ rw (redeem, e) refl
      | inr e ↦ elim (Option-cases (find (has_code (normalize code)) db.coupons)) [
        | inl n ↦ rw (redeem, e, n) refl
        | inr (c, found) ↦
            rw (redeem, e, found) (redeem_row-SameAdmins parse_uuid fresh now uid c db sound v)
      ]
    ]
