-- ===== src/Tools.antt =====
-- app/tools: the resilience of the live data sources.
pub mod Breaker
pub mod Resilience
pub mod Compress
pub mod Registry
pub mod Replay
