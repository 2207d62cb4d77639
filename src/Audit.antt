-- ===== src/Audit.antt =====
-- src/clausis/audit.py: the redacted, hash-chained audit log, with its file as a text.
pub mod Redaction
pub mod File
pub mod Privacy
pub mod Lines
pub mod Chain
pub mod Tamper
