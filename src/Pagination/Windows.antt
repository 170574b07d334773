-- ===== src/Pagination/Windows.antt =====
-- Which rows the pages show: crates/ppb-server/src/error/pagination.rs.
use phira_plus_backend.Prelude.{
  ℕ, zero, suc, ◌+◌, ◌-◌, ◌*◌, ◌^◌, ◌≤◌, ◌<◌, ◌≡◌, ◌∙◌, refl, sym, ap, subst, ℤ, pos, negsuc,
  wrap_i64, Option, none, some, List, [], ◌∷◌, ◌++◌, arith, Option-cases, inl, inr,
}
use native.Mathlib.Nat.{suc-mul}
use phira_plus_backend.ApiError.{Result, ok, err}
use phira_plus_backend.Pagination.{PaginationParams, page_of, page_num_of, resolve, offset_limit}

page_of-positive : (o : Option ℤ) → 1 ≤ page_of o
unfolding page_of
page_of-positive none = omega arith
page_of-positive (some (negsuc n)) = omega arith
page_of-positive (some (pos n)) = ground arith

page_num_of-limits : (o : Option ℤ) (n : ℕ) → page_num_of o ≡ some n → (1 ≤ n) × (n ≤ 100)
unfolding page_num_of
page_num_of-limits none n h = ground (arith, h)
page_num_of-limits (some (negsuc m)) n h = absurd (ground (arith, h))
page_num_of-limits (some (pos m)) n h = ground (arith, h)

wrap_i64-small : (n : ℕ) → n < 2 ^ 63 → wrap_i64 n ≡ pos n
wrap_i64-small n h = ground arith

-- A request that is resolved has a page from 1 and a size from 1 to 100; while the rows before the
-- page are fewer than 2 ^ 63, the offset is their number.
pub offset_limit-limits :
    (p : PaginationParams) (page size : ℕ)
    → resolve p ≡ ok (page, size)
    → (page - 1) * size < 2 ^ 63
    → (1 ≤ page) × (1 ≤ size) × (size ≤ 100) × (offset_limit p ≡ ok (pos ((page - 1) * size), size))
unfolding resolve offset_limit
offset_limit-limits p page size r l = elim (Option-cases (page_num_of p.page_num)) [
  | inl e ↦ absurd (ground (arith, e, r))
  | inr (n, e) ↦
      let (low, high) = page_num_of-limits p.page_num n e in
      let same_page : page_of p.page ≡ page = ground (arith, e, r) in
      let same_size : n ≡ size = ground (arith, e, r) in
      (
        subst (λ m. 1 ≤ m) same_page (page_of-positive p.page),
        subst (λ m. 1 ≤ m) same_size low,
        subst (λ m. m ≤ 100) same_size high,
        rw (offset_limit, r, wrap_i64-small ((page - 1) * size) l) refl,
      )
]

abbrev pub page_params : ℕ → ℕ → PaginationParams
page_params page size = record { page = some (pos page); page_num = some (pos size) }

module _ {A : Type 0} where
  abbrev pub take : ℕ → List A → List A
  take zero xs = []
  take (suc n) [] = []
  take (suc n) (x ∷ xs) = x ∷ take n xs

  abbrev pub drop : ℕ → List A → List A
  drop zero xs = xs
  drop (suc n) [] = []
  drop (suc n) (x ∷ xs) = drop n xs

  -- `OFFSET … LIMIT …`; a negative offset is an error of the statement.
  abbrev pub rows_at : ℤ → ℕ → List A → Option (List A)
  rows_at (pos offset) limit xs = some (take limit (drop offset xs))
  rows_at (negsuc n) limit xs = none

  -- The rows that a request shows.
  abbrev pub shown : PaginationParams → List A → Option (List A)
  shown p xs = elim (offset_limit p) [ err e ↦ none | ok (offset, limit) ↦ rows_at offset limit xs ]

  abbrev append_rows : Option (List A) → Option (List A) → Option (List A)
  append_rows (some xs) (some ys) = some (xs ++ ys)
  append_rows _ _ = none

  -- The rows of the pages from 1 to `k`, one after the other.
  pub first_pages : ℕ → ℕ → List A → Option (List A)
  first_pages zero size xs = some []
  first_pages (suc k) size xs =
      append_rows (first_pages k size xs) (shown (page_params (suc k) size) xs)

  take-nil : (n : ℕ) → take n [] ≡ []
  take-nil zero = refl
  take-nil (suc n) = refl

  take-suc : (k n : ℕ) (x : A) (xs : List A) → k ≡ suc n → take k (x ∷ xs) ≡ x ∷ take n xs
  take-suc k n x xs e = ap (λ m. take m (x ∷ xs)) e

  take-drop : (m n : ℕ) (xs : List A) → take m xs ++ take n (drop m xs) ≡ take (m + n) xs
  take-drop zero n xs = ap (λ k. take k xs) (omega arith)
  take-drop (suc m) n [] = take-nil n ∙ sym (take-nil (suc m + n))
  take-drop (suc m) n (x ∷ xs) =
      ap (λ ys. x ∷ ys) (take-drop m n xs) ∙ sym (take-suc (suc m + n) (m + n) x xs (omega arith))

  shown-page :
      (k size : ℕ) (xs : List A)
      → 1 ≤ size
      → size ≤ 100
      → k * size < 2 ^ 63
      → shown (page_params (suc k) size) xs ≡ some (take size (drop (k * size) xs))
  unfolding resolve page_of page_num_of
  shown-page k size xs low high l =
      let resolved : resolve (page_params (suc k) size) ≡ ok (suc k, size) =
        ground (arith, low, high) in
      let rows : (suc k - 1) * size ≡ k * size = ap (λ m. m * size) (omega arith) in
      let (_, _, _, answered) =
        offset_limit-limits (page_params (suc k) size) (suc k) size resolved
          (subst (λ m. m < 2 ^ 63) (sym rows) l) in
      ap
        (λ (r : Result (ℤ × ℕ)). elim r [
          | err e ↦ none
          | ok (offset, limit) ↦ rows_at offset limit xs
        ])
        answered
      ∙ ap (λ m. some (take size (drop m xs))) rows

  -- For any page size from 1 to 100 the first pages together show the first rows, each once and in
  -- order, while the rows are fewer than 2 ^ 63.
  pub first_pages-take :
      (k size : ℕ) (xs : List A)
      → 1 ≤ size
      → size ≤ 100
      → k * size < 2 ^ 63
      → first_pages k size xs ≡ some (take (k * size) xs)
  unfolding first_pages
  first_pages-take zero size xs low high l =
      let nothing : 0 ≡ 0 * size = omega arith in ap (λ m. some (take m xs)) nothing
  first_pages-take (suc k) size xs low high l =
      let grows : suc k * size ≡ k * size + size = suc-mul k size in
      let fewer : k * size < 2 ^ 63 = omega (arith, l, grows) in
      ap (λ o. append_rows o (shown (page_params (suc k) size) xs))
        (first_pages-take k size xs low high fewer)
      ∙ ap (append_rows (some (take (k * size) xs))) (shown-page k size xs low high fewer)
      ∙ ap some (take-drop (k * size) size xs ∙ ap (λ m. take m xs) (sym grows))
