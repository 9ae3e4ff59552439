-- ===== src/Agents.antt =====
-- app/agents: the citation check of the agents' answers.
pub mod Citations
pub mod Cited
pub mod Store
pub mod Loop
pub mod Once
