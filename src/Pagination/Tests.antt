-- ===== src/Pagination/Tests.antt =====
-- Two pages of two rows, and a page whose offset overflows.
use phira_plus_backend.Prelude.{
  ℕ, ◌*◌, ◌-◌, ◌^◌, ◌≡◌, refl, arith, some, none, List, [], ◌∷◌, pos, negsuc,
}
use phira_plus_backend.ApiError.{ok}
use phira_plus_backend.Pagination.{offset_limit}
use phira_plus_backend.Pagination.Windows.{take, first_pages, first_pages-take}

abbrev rows : List ℕ
rows = 1 ∷ 2 ∷ 3 ∷ 4 ∷ 5 ∷ []

first_pages-take_example : first_pages 2 2 rows ≡ some (take (2 * 2) rows)
first_pages-take_example = first_pages-take 2 2 rows (omega arith) (omega arith) (omega arith)

-- The last page that the type allows, with the default size: the offset is -40.
last_page_overflows :
    offset_limit (record { page = some (pos (2 ^ 63 - 1)); page_num = none }) ≡ ok (negsuc 39, 20)
unfolding offset_limit
last_page_overflows = refl
