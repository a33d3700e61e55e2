-- ===== src/Ties.antt =====
-- Which received files may be tied to which items of the checklist
-- (src/agents/declarationOfCapital/fileTies.ts and src/agents/shared/fileEvidence.ts).
pub mod Evidence
pub mod Company
pub mod Pairs
pub mod NewRows
pub mod Allowed
pub mod Assigned
mod Examples
