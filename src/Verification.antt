-- ===== src/Verification.antt =====
-- The check of a collected document (src/agents/declarationOfCapital/verifyDocument.ts).
pub mod Record
pub mod Check
pub mod Outcomes
pub mod Rounds
pub mod Batch
pub mod Checked
pub mod Examples
