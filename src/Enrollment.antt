-- ===== src/Enrollment.antt =====
-- The enrollment contract, contracts/lineproof-enrollment/src/lib.rs.
pub mod Types
pub mod Storage
pub mod Contract
pub mod Effects
pub mod Entries
pub mod Waitlist
pub mod Total
pub mod Promotion
pub mod Settling
pub mod Calls
pub mod Roster
pub mod Promoted
pub mod Tally
pub mod Counts
mod Tests
