-- ===== src/Examples.antt =====
-- Small databases and runs: each witness applies a theorem to one of them.
mod QueueRun
mod Checkout
mod Repair
mod History
mod Runs
mod Agents
mod Backends
mod Workers
mod Pipeline
mod Access
mod Recording
