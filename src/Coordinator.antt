-- ===== src/Coordinator.antt =====
-- src/mainnet/durable: the payment coordinator, a Durable Object over one SQL table.
pub mod Types
pub mod Table
pub mod State
pub mod Prepare
pub mod Verify
pub mod Settle
pub mod Query
pub mod Rpc
pub mod Invariant
pub mod Cases
pub mod Transitions
pub mod History
pub mod Tests
