-- ===== src/HttpClient.antt =====
-- pkg/httpclient: the retrying transport (middleware.go) and the guard against requests to internal
-- addresses (middleware.go and ssrf_dial.go).
pub mod Client
pub mod Retry
pub mod Ssrf
