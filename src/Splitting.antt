-- ===== src/Splitting.antt =====
-- Cutting a PDF that holds several documents (src/agents/declarationOfCapital/splitFileRules.ts).
pub mod Gate
pub mod Pages
pub mod Partition
pub mod Converse
pub mod Verdict
mod Examples
