-- ===== src/SendTime.antt =====
-- When a message may go out (src/agents/shared/sendAtGuard.ts).
mod Guard
mod Rolled
mod Examples
