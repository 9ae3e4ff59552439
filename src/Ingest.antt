-- ===== src/Ingest.antt =====
-- app/ingest.py: from an alert of the webhook to an incident and its triage job.
pub mod Alert
pub mod Flow
pub mod Opened
