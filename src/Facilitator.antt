-- ===== src/Facilitator.antt =====
-- src/mainnet/proof-facilitator-*.ts: the adapter of the candidate facilitator.
pub mod Errors
pub mod Responses
pub mod Http
pub mod Client
