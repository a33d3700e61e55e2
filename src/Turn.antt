-- ===== src/Turn.antt =====
-- The inbound turn: when the planner may run after the client wrote (src/orchestration/inboundTurn*.ts).
pub mod Rules
pub mod Store
pub mod Counting
pub mod Flag
pub mod Requests
mod Examples
