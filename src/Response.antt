-- ===== src/Response.antt =====
-- pkg/response/response.go: the JSON envelopes that handlers answer with, as data. `A` is the type
-- of what a handler puts into `data`; a total and a page size are natural numbers.
pub mod Pages
use wapgo.Base.{
  ℕ, suc, ◌+◌, ◌-◌, ◌*◌, ◌/◌, ◌≤◌, ◌<◌, ◌≡◌, Bool, true, false, Option, none, some, List, [], ltb,
  if◌then◌else◌, arith,
}
use wapgo.Base.Text.{Text, codes}

pub data ErrorCode : Type 0 where
  validation not_found conflict unauthorized forbidden internal bad_request rate_limit : ErrorCode

pub record PageMeta : Type 0 where
  pub page : ℕ
  pub per_page : ℕ
  pub total : ℕ
  pub total_pages : ℕ

-- A status code with the body: an envelope with its message and data, an error, or a page.
pub data Reply (A : Type 0) : Type 0 where
  envelope : ℕ → Text → Option A → Reply A
  failure : ℕ → ErrorCode → Text → Reply A
  paged : ℕ → Text → List A → PageMeta → Reply A

module _ {A : Type 0} where
  abbrev pub success : Text → Option A → Reply A
  success message content = envelope 200 message content

  abbrev pub created : Text → Option A → Reply A
  created message content = envelope 201 message content

  abbrev pub error : ℕ → ErrorCode → Text → Reply A
  error http_status err_code message = failure http_status err_code message

  abbrev pub bad_request_reply : Text → Reply A
  bad_request_reply message = error 400 bad_request message

  abbrev pub not_found_reply : Text → Reply A
  not_found_reply message = error 404 not_found message

  abbrev pub conflict_reply : Text → Reply A
  conflict_reply message = error 409 conflict message

  abbrev pub internal_error : Reply A
  internal_error = error 500 internal (codes "internal server error")

  abbrev pub unauthorized_reply : Reply A
  unauthorized_reply = error 401 unauthorized (codes "unauthorized")

  abbrev pub forbidden_reply : Reply A
  forbidden_reply = error 403 forbidden (codes "forbidden")

  -- The status code of an answer.
  abbrev pub status : Reply A → ℕ
  status (envelope code m d) = code
  status (failure code e m) = code
  status (paged code m d p) = code

unfoldable pub page_meta : ℕ → ℕ → ℕ → PageMeta
page_meta page per_page total = record {
  page = page;
  per_page = per_page;
  total = total;
  total_pages = if ltb 0 per_page then (total + per_page - 1) / per_page else 0;
}

unfoldable pub paginated : {A : Type 0} → Text → List A → ℕ → ℕ → ℕ → Reply A
unfolding page_meta
paginated message content page per_page total =
    paged 200 message content (page_meta page per_page total)
