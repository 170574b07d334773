-- ===== src/Coupons/Redeem/Statuses.antt =====
-- What `redeem` answers by the status that `list` shows, and after `create` and `revoke`:
-- crates/ppb-server/src/admin/coupons.rs.
use phira_plus_backend.Prelude.{
  ℕ, ◌≡◌, ◌∙◌, refl, sym, ap, subst, String, Bool, true, false, not, ◌&&◌, Option, some, none, List,
  ◌==◌, nat_eq, string_eq, any, find, leb, is_empty, is_some, arith, Bool-cases, Option-cases, inl,
  inr, if◌then◌else◌,
}
use phira_plus_backend.ErrorCode.{
  redemption_code_revoked, redemption_code_expired, redemption_code_limit_reached,
  redemption_code_already_used,
}
use phira_plus_backend.ApiError.{ApiError, Result, ok, err, ◌>>◌, Result-cases, api_error, denied}
use phira_plus_backend.Permissions.{Principal, root, user}
use phira_plus_backend.Coupons.{
  Coupon, CouponStatus, Db, Outcome, shown_active, shown_revoked, shown_expired, shown_redeemed,
  status_of, is_past, normalize, has_code, refuse_if, validate_action,
}
use phira_plus_backend.Coupons.Redeem.{
  is_held_by, is_redemption, redeemable, execute_action, finish, redeem_row, redeem,
}

-- Whether a code of a mode and a holder may be redeemed by a user.
unfoldable pub may_hold : Bool → Option ℕ → ℕ → Bool
may_hold creator none uid = not creator
may_hold creator (some holder) uid = holder == uid

-- The answer to a code in force.
unfoldable pub answer_if :
    (String → Option ℕ) → ℕ → ℕ → Coupon → Db → Bool → Result (String × Outcome) × Db
unfolding may_hold validate_action finish execute_action
answer_if parse_uuid fresh uid c db held =
    if not held
    then (err denied, db)
    else if any (is_redemption c.id uid) db.redemptions
    then (err (api_error redemption_code_already_used "redemption code already used"), db)
    else elim (validate_action c.action_type c.payload) [
      | err e ↦ (err e, db)
      | ok valid ↦
          finish uid c db (execute_action parse_uuid fresh uid c.id c.action_type c.payload db)
    ]

abbrev pub answer_active :
    (String → Option ℕ) → ℕ → ℕ → Coupon → Db → Result (String × Outcome) × Db
answer_active parse_uuid fresh uid c db =
    answer_if parse_uuid fresh uid c db (may_hold (c.holder_mode == "creator") c.holder_user_id uid)

-- The answer by the status shown: the three refusals, or that to a code in force.
abbrev pub by_status :
    CouponStatus → Result (String × Outcome) × Db → Db → Result (String × Outcome) × Db
by_status shown_revoked active db =
    (err (api_error redemption_code_revoked "redemption code revoked"), db)
by_status shown_expired active db =
    (err (api_error redemption_code_expired "redemption code expired"), db)
by_status shown_redeemed active db =
    (err (api_error redemption_code_limit_reached "redemption code limit reached"), db)
by_status shown_active active db = active

row_of :
    (parse_uuid : String → Option ℕ) (fresh now uid : ℕ) (code : List ℕ) (c : Coupon) (db : Db)
    → is_empty (normalize code) ≡ false
    → find (has_code (normalize code)) db.coupons ≡ some c
    → redeem parse_uuid fresh now (user uid) code db ≡ redeem_row parse_uuid fresh now uid c db
unfolding redeem
row_of parse_uuid fresh now uid code c db full found = rw (redeem, full, found) refl

held_by :
    (creator : Bool) (holder : Option ℕ) (uid : ℕ) (rest : Result (Unit {0}))
    → (refuse_if (is_some holder && not (is_held_by uid holder)) denied
        >> (refuse_if (creator && not (is_held_by uid holder)) denied >> rest))
      ≡ (if not (may_hold creator holder uid) then err denied else rest)
unfolding may_hold
held_by creator none uid rest = ground arith
held_by creator (some holder) uid rest = ground arith

in_force :
    (parse_uuid : String → Option ℕ) (fresh uid : ℕ) (c : Coupon) (db : Db) (h : Bool)
    → elim (if not h
          then err denied
          else (refuse_if
                (any (is_redemption c.id uid) db.redemptions)
                (api_error redemption_code_already_used "redemption code already used")
              >> validate_action c.action_type c.payload))
        as (λ r. Result (String × Outcome) × Db) [
          | err e ↦ (err e, db)
          | ok free ↦
              finish uid c db (execute_action parse_uuid fresh uid c.id c.action_type c.payload db)
        ]
      ≡ answer_if parse_uuid fresh uid c db h
unfolding answer_if
in_force parse_uuid fresh uid c db false = refl
in_force parse_uuid fresh uid c db true =
    elim (Bool-cases (any (is_redemption c.id uid) db.redemptions)) [
      | inl e ↦ rw (answer_if, e) refl
      | inr e ↦ rw (answer_if, e) refl
    ]

row-by_status :
    (parse_uuid : String → Option ℕ) (fresh now uid : ℕ) (c : Coupon) (db : Db)
    → redeem_row parse_uuid fresh now uid c db
      ≡ by_status (status_of now c) (answer_active parse_uuid fresh uid c db) db
unfolding status_of redeem_row redeemable answer_if
row-by_status parse_uuid fresh now uid c db = elim (Bool-cases c.is_revoked) [
  | inl r ↦ rw (redeem_row, redeemable, status_of, r) refl
  | inr r ↦ elim (Bool-cases (is_past now c.expires_at)) [
    | inl x ↦ rw (redeem_row, redeemable, status_of, r, x) refl
    | inr x ↦ elim (Bool-cases (leb c.max_uses c.used_count)) [
      | inl l ↦ rw (redeem_row, redeemable, status_of, r, x, l) refl
      | inr l ↦
          rw
            (
              redeem_row,
              redeemable,
              status_of,
              r,
              x,
              l,
              held_by (c.holder_mode == "creator") c.holder_user_id uid (
                  refuse_if (any (is_redemption c.id uid) db.redemptions)
                    (api_error redemption_code_already_used "redemption code already used")
                  >> validate_action c.action_type c.payload),
            )
            (in_force parse_uuid fresh uid c db
              (may_hold (c.holder_mode == "creator") c.holder_user_id uid))
    ]
  ]
]

-- A code that is found is answered by the status that the list of codes shows at the time: revoked,
-- expired and used up ones are refused as such, and one in force is refused to those whom its
-- holder keeps out and to whom has redeemed it, and else its action decides.
pub redeem-by_status :
    (parse_uuid : String → Option ℕ) (fresh now uid : ℕ) (code : List ℕ) (c : Coupon) (db : Db)
    → is_empty (normalize code) ≡ false
    → find (has_code (normalize code)) db.coupons ≡ some c
    → redeem parse_uuid fresh now (user uid) code db
      ≡ by_status (status_of now c) (answer_active parse_uuid fresh uid c db) db
redeem-by_status parse_uuid fresh now uid code c db full found =
    row_of parse_uuid fresh now uid code c db full found
    ∙ row-by_status parse_uuid fresh now uid c db

rolled_back :
    (uid : ℕ) (c : Coupon) (db : Db) (r : Result Outcome × Db) (e : ApiError)
    → (finish uid c db r).0 ≡ err e
    → (finish uid c db r).1 ≡ db
unfolding finish
rolled_back uid c db (err x, after) e h = refl
rolled_back uid c db (ok result, after) e h = absurd (ground (arith, h))

redeem_row-rolled_back :
    (parse_uuid : String → Option ℕ) (fresh now uid : ℕ) (c : Coupon) (db : Db) (e : ApiError)
    → (redeem_row parse_uuid fresh now uid c db).0 ≡ err e
    → (redeem_row parse_uuid fresh now uid c db).1 ≡ db
unfolding redeem_row
redeem_row-rolled_back parse_uuid fresh now uid c db e h =
    elim (Result-cases (redeemable now uid c db)) [
      | inr (x, r) ↦ rw (redeem_row, r) refl
      | inl (done, r) ↦
          let run = execute_action parse_uuid fresh uid c.id c.action_type c.payload db in
          rw (redeem_row, r)
            (rolled_back uid c db run e (
              subst
                (λ s.
                  (elim s as (λ q. Result (String × Outcome) × Db) [
                    | err x ↦ (err x, db)
                    | ok free ↦ finish uid c db run
                  ]).0
                  ≡ err e)
                r h))
    ]

-- A refused redemption changes nothing, whatever its action had done before the refusal.
pub redeem-rolled_back :
    (parse_uuid : String → Option ℕ) (fresh now : ℕ) (auth : Principal) (code : List ℕ) (db : Db)
    (e : ApiError)
    → (redeem parse_uuid fresh now auth code db).0 ≡ err e
    → (redeem parse_uuid fresh now auth code db).1 ≡ db
unfolding redeem
redeem-rolled_back parse_uuid fresh now root code db e h = refl
redeem-rolled_back parse_uuid fresh now (user uid) code db e h =
    elim (Bool-cases (is_empty (normalize code))) [
      | inl n ↦ rw (redeem, n) refl
      | inr n ↦ elim (Option-cases (find (has_code (normalize code)) db.coupons)) [
        | inl m ↦ rw (redeem, n, m) refl
        | inr (c, found) ↦
            let same = row_of parse_uuid fresh now uid code c db n found in
            ap (λ r. r.1) same
            ∙ redeem_row-rolled_back parse_uuid fresh now uid c db e (sym (ap (λ r. r.0) same) ∙ h)
      ]
    ]
