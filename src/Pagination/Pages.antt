-- ===== src/Pagination/Pages.antt =====
-- The pages that pkg/pagination/pagination.go and pkg/response/response.go cut a table into.
use wapgo.Base.{ℕ, ◌+◌, ◌-◌, ◌*◌, ◌^◌, ◌≤◌, ◌<◌, ◌≡◌, true, List, arith}
use wapgo.Base.Int.{pos, ltb_ℤ}
use wapgo.Pagination.{Request, page_num, page_size, offset, new_result, ceil_div}

-- Whatever the query string says, a page has between 1 and 100 rows and a number of at least 1.
pub page_bounds : (r : Request) → (1 ≤ page_size r) × (page_size r ≤ 100) × (1 ≤ page_num r)
unfolding page_size page_num
page_bounds r = ground arith

-- The offset is that of the page, if it fits into 63 bits.
pub offset_exact :
    (r : Request)
    → (page_num r - 1) * page_size r < 2 ^ 63
    → offset r ≡ pos ((page_num r - 1) * page_size r)
unfolding offset
offset_exact r h = ground arith

-- If it does not, the product wraps, and up to 2^64 the offset is negative.
pub offset_negative :
    (r : Request)
    → 2 ^ 63 ≤ (page_num r - 1) * page_size r
    → (page_num r - 1) * page_size r < 2 ^ 64
    → ltb_ℤ (offset r) (pos 0) ≡ true
unfolding offset
offset_negative r h k = ground arith

ceil_div_bounds : (a b : ℕ) → 0 < b → (a ≤ ceil_div a b * b) × (ceil_div a b * b < a + b)
ceil_div_bounds a b h = grind arith

-- The number of pages that a result reports is the least number of pages that hold all rows.
pub new_result_pages :
    {A : Type 0} (items : List A) (total : ℕ) (r : Request)
    → let pages = (new_result items total r).total_pages in
      (total ≤ pages * page_size r) × (pages * page_size r < total + page_size r)
unfolding new_result
new_result_pages items total r =
    ground (arith, page_bounds r, ceil_div_bounds total (page_size r) (page_bounds r).0)

abbrev pub at_page : Request → ℕ → Request
at_page r p = record r { page = pos p }
