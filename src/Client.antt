-- ===== src/Client.antt =====
-- src/mainnet/browser: the client of the paid route in the buyer's browser.
pub mod Poller
pub mod Sanitize
pub mod Web
pub mod Terms
pub mod Settlement
pub mod Executor
pub mod State
pub mod Controller
pub mod Session
