-- ===== src/Prelude/Counts.antt =====
-- Counting the rows that pass a test, before and after an update.
use Prim.Native.Nat.{ℕ, ◌+◌, ◌≤◌}
use mathlib.Core.Path.{◌≡◌, ◌∙◌, refl, ap, subst}
use mathlib.Core.Bool.{Bool, true, false, not, ◌&&◌, ◌||◌}
use mathlib.Core.List.{List, [], ◌∷◌}
use mathlib.Core.Option.{some}
use mathlib.Core.Logic.{inl, inr}
use native.Mathlib.Omega.{arith}
use phira_plus_backend.Prelude.Tests.{if◌then◌else◌, nat_beq, nat_beq_iff, Bool-cases}
use phira_plus_backend.Prelude.Lists.{any, every, find, update_where, count_where, any-found}

module _ {ℓ} {A : Type ℓ} where
  pub count_where-of_none : (p : A → Bool) (xs : List A) → any p xs ≡ false → count_where p xs ≡ 0
  count_where-of_none p [] h = refl
  count_where-of_none p (x ∷ xs) h = ground (arith, count_where-of_none p xs)

  pub count_where-le :
      (p q : A → Bool) (xs : List A) → count_where (λ x. p x && q x) xs ≤ count_where q xs
  count_where-le p q [] = omega arith
  count_where-le p q (x ∷ xs) = ground (arith, count_where-le p q xs)

  -- Rows are counted after an update as those left alone and those changed.
  pub count_where-update_where :
      (p q : A → Bool) (f : A → A) (xs : List A)
      → count_where p (update_where q f xs)
        ≡ count_where (λ x. not (q x) && p x) xs + count_where (λ x. q x && p (f x)) xs
  count_where-update_where p q f [] = refl
  count_where-update_where p q f (x ∷ xs) = ground (arith, count_where-update_where p q f xs)

  count_where-and_zero :
      (q g : A → Bool) (xs : List A) → count_where q xs ≡ 0 → count_where (λ x. q x && g x) xs ≡ 0
  count_where-and_zero q g [] h = refl
  count_where-and_zero q g (x ∷ xs) h = ground (arith, count_where-and_zero q g xs)

  -- Where one row at most passes a test, the first one found decides what is counted among them.
  pub count_where-found :
      (q g : A → Bool) (xs : List A) (a : A)
      → find q xs ≡ some a
      → count_where q xs ≤ 1
      → count_where (λ x. q x && g x) xs ≡ (if g a then 1 else 0)
  count_where-found q g [] a h c = cc
  count_where-found q g (x ∷ xs) a h c =
      ground (arith, count_where-found q g xs a, count_where-and_zero q g xs)

  pub count_where-update_same :
      (p q : A → Bool) (f : A → A) (xs : List A)
      → ((x : A) → p (f x) ≡ p x)
      → count_where p (update_where q f xs) ≡ count_where p xs
  count_where-update_same p q f [] h = refl
  count_where-update_same p q f (x ∷ xs) h = ground (arith, h x, count_where-update_same p q f xs h)

  pub count_where-and_left :
      (p q : A → Bool) (xs : List A) → count_where (λ x. p x && q x) xs ≤ count_where p xs
  count_where-and_left p q [] = omega arith
  count_where-and_left p q (x ∷ xs) = ground (arith, count_where-and_left p q xs)

  pub count_where_pos : (p : A → Bool) (xs : List A) → any p xs ≡ true → 1 ≤ count_where p xs
  count_where_pos p [] h = absurd (ground (arith, h))
  count_where_pos p (x ∷ xs) h = ground (arith, count_where_pos p xs)

  every-not_counted :
      (p q : A → Bool) (xs : List A)
      → count_where p xs ≡ 0
      → every (λ x. not (p x) || q x) xs ≡ true
  every-not_counted p q [] h = refl
  every-not_counted p q (x ∷ xs) h = ground (arith, h, every-not_counted p q xs)

  -- Of rows with distinct keys, what holds of a row found holds of all rows with its key.
  pub every-found :
      (key : A → ℕ) (p q : A → Bool) (xs : List A) (a : A)
      → find p xs ≡ some a
      → count_where (λ x. nat_beq (key x) (key a)) xs ≤ 1
      → q a ≡ true
      → every (λ x. not (nat_beq (key x) (key a)) || q x) xs ≡ true
  every-found key p q [] a found u h = refl
  every-found key p q (x ∷ xs) a found u h = elim (Bool-cases (p x)) [
    | inl e ↦
        let same : x ≡ a = ground (arith, found, e) in
        let mine = (nat_beq_iff (key x) (key a)).1 (ap key same) in
        let good = ap q same ∙ h in
        ground (arith, mine, good, every-not_counted (λ y. nat_beq (key y) (key a)) q xs, u)
    | inr e ↦
        let rest : find p xs ≡ some a = ground (arith, found, e) in
        let there =
          count_where_pos (λ y. nat_beq (key y) (key a)) xs
            (any-found p (λ y. nat_beq (key y) (key a)) xs a rest
              ((nat_beq_iff (key a) (key a)).1 refl)) in
        ground (arith, u, there, every-found key p q xs a rest, h)
  ]

  -- No row passes both tests where every row that passes the one fails the other.
  pub any-every :
      (p q : A → Bool) (xs : List A)
      → every (λ x. not (p x) || not (q x)) xs ≡ true
      → any (λ x. p x && q x) xs ≡ false
  any-every p q [] h = refl
  any-every p q (x ∷ xs) h = ground (arith, h, any-every p q xs)

  -- The row found after a change of some rows that the test does not see.
  pub find-update_other :
      (p q : A → Bool) (f : A → A) (xs : List A) (a : A)
      → ((x : A) → p (f x) ≡ p x)
      → find p xs ≡ some a
      → find p (update_where q f xs) ≡ some (if q a then f a else a)
  find-update_other p q f [] a same h = absurd (ground (arith, h))
  find-update_other p q f (x ∷ xs) a same h = elim (Bool-cases (p x)) [
    | inl e ↦
        let this : x ≡ a = ground (arith, h, e) in
        subst (λ y. find p (update_where q f (x ∷ xs)) ≡ some (if q y then f y else y)) this
          (ground (arith, same x, e))
    | inr e ↦ ground (arith, same x, e, h, find-update_other p q f xs a same)
  ]
