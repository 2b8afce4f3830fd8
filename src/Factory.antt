-- ===== src/Factory.antt =====
-- The queue factory, contracts/lineproof-queue-factory/src/lib.rs.
pub mod Types
pub mod Storage
pub mod Contract
pub mod Effects
pub mod Calls
pub mod Registry
pub mod Governance
pub mod Exact
pub mod RoundTrip
mod Tests
