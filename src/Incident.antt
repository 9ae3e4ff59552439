-- ===== src/Incident.antt =====
-- app/db/incidents.py: the incident state machine and the `incidents` table.
pub mod State
pub mod Walk
pub mod Table
pub mod Merge
