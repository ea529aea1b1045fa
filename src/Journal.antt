-- ===== src/Journal.antt =====
-- pkg/journal: the record of one request. Redact is redact.go, Record is journal.go.
pub mod Redact
pub mod Record
