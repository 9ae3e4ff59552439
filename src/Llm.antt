-- ===== src/Llm.antt =====
-- app/llm: what the model backends take and return, their retries, recording and replay.
pub mod Json
pub mod Types
pub mod Step
pub mod Retry
pub mod Replay
