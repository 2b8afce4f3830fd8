-- ===== src/Escrow.antt =====
-- The escrow contract, contracts/lineproof-escrow/src/lib.rs.
pub mod Types
pub mod Contract
pub mod Steps
pub mod Effects
pub mod Calls
pub mod Backing
pub mod Solvent
pub mod Payout
pub mod Deposit
pub mod Records
pub mod Audit
mod Tests
