-- ===== src/Fetch.antt =====
-- The sessions of a tax-document fetch in flight
-- (src/agents/declarationOfCapital/taxFetch/sessionTracker.ts).
pub mod Tracker
pub mod Timers
pub mod Sessions
mod Examples
