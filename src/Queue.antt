-- ===== src/Queue.antt =====
-- app/queue/jobs.py: the `jobs` table and the statements on it. `now` is the transaction's time;
-- times and durations are in one unit. `held` says which rows another transaction has locked
-- (SKIP LOCKED). The newest row stands first.
mod Table
mod Claim
mod Lease
mod Owner
pub mod Step
pub mod Line
pub mod Invariant
pub mod Fencing
pub mod Exclusive
pub mod Ended
pub mod Fairness
pub mod Retry
pub mod Refused
unfoldable pub use Table.*
unfoldable pub use Claim.*
unfoldable pub use Lease.*
