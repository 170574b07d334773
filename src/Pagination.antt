-- ===== src/Pagination.antt =====
-- Pages of listings: crates/ppb-server/src/error/pagination.rs. A resolved page and page size are
-- positive and so natural; an offset is what 64-bit arithmetic leaves of it.
mod Windows
mod Tests
use phira_plus_backend.Prelude.{
  ℕ, ◌-◌, ◌*◌, ℤ, pos, negsuc, wrap_i64, Bool, true, false, not, ◌&&◌, Option, none, some, List,
  leb, if◌then◌else◌,
}
use phira_plus_backend.ErrorCode.{invalid_query}
use phira_plus_backend.ApiError.{Result, ok, err, ◌>>=◌, ◌>>◌, api_error}

abbrev pub max_page_num : ℕ
max_page_num = 100

abbrev pub default_page_num : ℕ
default_page_num = 20

-- Its numbers are `i64`.
pub record PaginationParams : Type 0 where
  pub page : Option ℤ
  pub page_num : Option ℤ

-- `unwrap_or(1).max(1)`.
pub page_of : Option ℤ → ℕ
page_of none = 1
page_of (some (negsuc n)) = 1
page_of (some (pos n)) = if leb 1 n then n else 1

-- `unwrap_or(DEFAULT_PAGE_NUM)` and the test of the range.
pub page_num_of : Option ℤ → Option ℕ
page_num_of none = some default_page_num
page_num_of (some (negsuc n)) = none
page_num_of (some (pos n)) = if leb 1 n && leb n max_page_num then some n else none

pub resolve : PaginationParams → Result (ℕ × ℕ)
unfolding page_of page_num_of
resolve p = elim (page_num_of p.page_num) [
  | none ↦ err (api_error invalid_query "pageNum must be between 1 and 100")
  | some page_num ↦ ok (page_of p.page, page_num)
]

-- `offset_limit`, for `OFFSET` and `LIMIT`.
pub offset_limit : PaginationParams → Result (ℤ × ℕ)
unfolding resolve
offset_limit p = do (page, page_num) ← resolve p; ok (wrap_i64 ((page - 1) * page_num), page_num)

-- The response `Page<T>`.
pub record Page {ℓ} (A : Type ℓ) : Type ℓ where
  pub items : List A
  pub total : ℕ
  pub page : ℕ
  pub page_num : ℕ
