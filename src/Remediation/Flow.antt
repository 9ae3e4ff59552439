-- ===== src/Remediation/Flow.antt =====
-- app/remediation/flow.py: the remediation part of the state machine, in the database.
mod Review
mod Submit
mod Decide
unfoldable pub use Review.*
unfoldable pub use Submit.*
unfoldable pub use Decide.*
