-- ===== src/Executor.antt =====
-- app/executor: what the executor checks before it touches the cluster.
pub mod Gate
pub mod Cleared
pub mod Job
pub mod Once
pub mod Complete
