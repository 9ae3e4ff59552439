-- ===== src/Audit.antt =====
-- app/db/audit.py: the hash-chained audit log.
pub mod Payload
pub mod Log
pub mod Chain
pub mod Tamper
