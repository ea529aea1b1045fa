-- ===== src/Pagination.antt =====
-- pkg/pagination/pagination.go. A Go `int` is an integer of 64 bits with the wrap-around written
-- out where the code multiplies. `math.Ceil` of the quotient of two floats is the exact ceiling here:
-- with a size of at most 100 the two are the same for a total below 2^53, and from there on the
-- conversion of the total to a float rounds.
pub mod Pages
pub mod Clause
use wapgo.Base.{
  ℕ, suc, ◌+◌, ◌-◌, ◌*◌, ◌/◌, ◌%◌, ◌^◌, Bool, true, false, List, [], ◌++◌, ltb, ◌==◌, if◌then◌else◌,
}
use wapgo.Base.Int.{ℤ, pos, negsuc, pos_part, ltb_ℤ, signed64}
use wapgo.Base.Text.{Text, codes, text_eq}

abbrev pub default_page : ℕ
default_page = 1

abbrev pub default_size : ℕ
default_size = 20

abbrev pub max_size : ℕ
max_size = 100

abbrev pub default_sort_col : Text
default_sort_col = codes "created_at"

abbrev pub default_order : Text
default_order = codes "desc"

pub record Request : Type 0 where
  pub page : ℤ
  pub size : ℤ
  pub sort : Text
  pub order : Text

unfoldable pub page_num : Request → ℕ
page_num r = if ltb_ℤ r.page (pos 1) then default_page else pos_part r.page

unfoldable pub page_size : Request → ℕ
page_size r =
    if ltb_ℤ r.size (pos 1)
    then default_size
    else (if ltb_ℤ (pos max_size) r.size then max_size else pos_part r.size)

unfoldable pub sort_column : Request → Text
unfolding text_eq
sort_column r = if text_eq r.sort [] then default_sort_col else r.sort

unfoldable pub sort_order : Request → Text
unfolding text_eq
sort_order r = if text_eq r.order (codes "asc") then codes "asc" else default_order

unfoldable pub offset : Request → ℤ
unfolding page_num page_size
offset r = signed64 ((page_num r - 1) * page_size r)

pub record Result (A : Type 0) : Type 0 where
  pub items : List A
  pub page : ℕ
  pub size : ℕ
  pub total : ℕ
  pub total_pages : ℕ

-- `math.Ceil(a / b)`, for a positive `b`.
abbrev pub ceil_div : ℕ → ℕ → ℕ
ceil_div a b = if a % b == 0 then a / b else a / b + 1

unfoldable pub new_result : {A : Type 0} → List A → ℕ → Request → Result A
unfolding page_num page_size
new_result items total req =
    let total_pages = ceil_div total (page_size req) in
    record {
      items = items;
      page = page_num req;
      size = page_size req;
      total = total;
      total_pages = if ltb total_pages 1 then 0 else total_pages;
    }

-- What `Scope` adds to a query: `ORDER BY`, `LIMIT` and `OFFSET`.
pub record Scoped : Type 0 where
  pub order : Text
  pub limit : ℕ
  pub offset : ℤ

unfoldable pub scope : Request → Scoped
unfolding sort_column sort_order page_size offset
scope req = record {
  order = sort_column req ++ (codes " " ++ sort_order req);
  limit = page_size req;
  offset = offset req;
}
