-- ===== src/Response/Pages.antt =====
-- The number of pages in the envelope of a list (pkg/response/response.go).
use wapgo.Base.{ℕ, ◌+◌, ◌-◌, ◌*◌, ◌/◌, ◌≤◌, ◌<◌, ◌≡◌, List, arith, lt→ltb}
use wapgo.Pagination.{Request, page_size, new_result}
use wapgo.Pagination.Pages.{page_bounds, new_result_pages}
use wapgo.Response.{page_meta}

pages_bounds : (a b : ℕ) → 0 < b → (a ≤ (a + b - 1) / b * b) × ((a + b - 1) / b * b < a + b)
pages_bounds a b h = grind arith

pages_unique : (a b p q : ℕ) → 0 < b → a ≤ p * b → p * b < a + b → a ≤ q * b → q * b < a + b → p ≡ q
pages_unique a b p q h i j k l = grind arith

-- The envelope of a list and the result of the pagination package report the same number of pages,
-- although one divides integers and the other rounds a quotient up.
pub page_meta_pages :
    {A : Type 0} (items : List A) (page total : ℕ) (r : Request)
    → (page_meta page (page_size r) total).total_pages ≡ (new_result items total r).total_pages
unfolding page_meta
page_meta_pages items page total r =
    let s = page_size r in
    let positive = (page_bounds r).0 in
    let (a, b) = pages_bounds total s positive in
    let (c, d) = new_result_pages items total r in
    rw (lt→ltb 0 s positive) (
      pages_unique total s ((total + s - 1) / s) (new_result items total r).total_pages positive a b
        c d)
