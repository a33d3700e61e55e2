-- ===== src/Ingest.antt =====
-- Fetching and storing a file that a client sent, with a bounded retry (src/webhook/ingestRetry.ts and
-- ingestInboundFileCore.ts).
pub mod Retry
pub mod Attempts
pub mod Store
pub mod Kept
pub mod Accounted
pub mod Lost
mod Examples
