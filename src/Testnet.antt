-- ===== src/Testnet.antt =====
-- The testnet payment path: src/config.ts, payment-policy.ts, pay-public-config.ts and the payment
-- of src/browser.
pub mod Config
pub mod Policy
pub mod Quote
pub mod Settlement
pub mod Executor
pub mod Terms
pub mod Wallet
pub mod Page
pub mod Server
