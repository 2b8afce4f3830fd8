-- ===== src/Identity.antt =====
-- The identity contract, contracts/lineproof-identity/src/lib.rs.
pub mod Types
pub mod Contract
pub mod Effects
pub mod Calls
pub mod Bindings
pub mod Transfers
mod Tests
