-- ===== src/Pagination/Clause.antt =====
-- The `ORDER BY` text that pkg/pagination/pagination.go hands to the database.
use wapgo.Base.{◌≡◌, ◌≢◌, ◌⊎◌, [], ◌++◌, arith}
use wapgo.Base.Text.{codes, text_eq_iff}
use wapgo.Pagination.{Request, sort_column, sort_order, scope}

-- The direction is one of two words, whatever was asked for.
pub sort_order_words : (r : Request) → (sort_order r ≡ codes "asc") ⊎ (sort_order r ≡ codes "desc")
unfolding sort_order
sort_order_words r = ground (arith, text_eq_iff r.order (codes "asc"))

-- A sort column that the client sends is neither checked nor quoted: any text at all becomes the
-- head of the `ORDER BY` clause.
pub scope_raw_sort :
    (r : Request) → r.sort ≢ [] → (scope r).order ≡ r.sort ++ (codes " " ++ sort_order r)
unfolding scope sort_column
scope_raw_sort r h = ground (arith, text_eq_iff r.sort [])
