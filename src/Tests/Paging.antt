-- ===== src/Tests/Paging.antt =====
-- Pagination and the list envelope on concrete requests.
use wapgo.Base.Int.{pos}
use wapgo.Base.Text.{codes}
use wapgo.Pagination.{Request}

abbrev request : Request
request = record { page = pos 3; size = pos 10; sort = codes "name"; order = codes "asc" }
