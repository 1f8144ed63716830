-- ===== src/Audit.antt =====
-- sentinelmcp/telemetry/audit.py: the audit record of a `tools/call` attempt, its redaction and its
-- serialization.
pub mod Names
pub mod Redaction
pub mod Record
