-- ===== src/Buyer.antt =====
-- src/buyer-guards.ts, buyer-diagnostics.ts and buyer-run.ts: a payment from the command line.
pub mod Guards
pub mod Redaction
pub mod Diagnostics
pub mod Run
pub mod Preflight
