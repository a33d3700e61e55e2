-- ===== src/Decline.antt =====
-- A client who declines the collection (src/agents/declarationOfCapital/clientDeclineRules.ts).
pub mod Rules
pub mod Handling
mod Examples
