-- ===== src/Orchestrator.antt =====
-- src/mainnet/idempotency/mainnet-payment-orchestrator.ts: one paid request, from its arrival to
-- its response.
pub mod Http
pub mod Prog
pub mod Context
pub mod Attempt
pub mod Handler
pub mod Sound
pub mod System
