-- ===== src/Remediation.antt =====
-- app/remediation: the plan a repair is proposed by, the policy that judges it, and the flow of a
-- plan through review, approval and execution.
pub mod Plan
pub mod Policy
pub mod Safety
pub mod Verdict
pub mod Prose
pub mod Hours
pub mod Flow
pub mod CarriedOut
pub mod Decided
pub mod Submitted
pub mod Placed
