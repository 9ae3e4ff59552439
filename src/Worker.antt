-- ===== src/Worker.antt =====
-- app/worker/remediate.py and runner.py: the worker's remediation jobs, the ends of the executor's, and the
-- process that runs them.
pub mod Moves
pub mod Timely
pub mod Verify
pub mod Streak
pub mod Runner
pub mod Pipeline
