-- ===== src/Decision.antt =====
-- The gate on the planner's answer (src/agents/declarationOfCapital/decisionSchema.ts).
pub mod Result
pub mod Quotes
pub mod Answer
pub mod Evidence
pub mod Lists
pub mod Message
pub mod Gate
pub mod Backed
pub mod Sound
pub mod Entries
pub mod Accepted
pub mod Ties
pub mod Steps
pub mod Messages
pub mod Shapes
pub mod Replies
pub mod Examples
