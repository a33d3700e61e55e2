-- ===== src/Planning.antt =====
-- The planner run of a client (src/orchestration/setFutureEmail.ts and src/queue/replanWorker.ts).
pub mod Plan
pub mod Replan
pub mod Conditions
pub mod Runs
mod Examples
