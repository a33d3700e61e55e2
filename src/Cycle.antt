-- ===== src/Cycle.antt =====
-- One cycle of the planner (src/agents/declarationOfCapital/plan.ts): from the answer that the gate let
-- through to the changes of the checklist, the collected files and the message.
mod Run
mod Apply
mod Decide
mod Collect
mod Follow
mod Kept
mod Same
mod Attests
mod Earned
mod Depth
mod Goal
mod Reply
mod Completion
mod Examples
