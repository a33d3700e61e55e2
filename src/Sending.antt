-- ===== src/Sending.antt =====
-- The pending send of a client: its mirror row, the queue's job and the draft (src/orchestration,
-- src/queue/sendEmailWorker.ts).
pub mod Rules
pub mod Mirror
pub mod Recovery
pub mod Worker
pub mod Gates
pub mod Outcomes
pub mod Ends
pub mod Resume
pub mod Resync
pub mod Review
pub mod Unapproved
pub mod Approved
pub mod Released
mod Examples
mod ReviewExamples
