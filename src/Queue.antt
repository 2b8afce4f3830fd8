-- ===== src/Queue.antt =====
-- The queue contract, contracts/lineproof-queue/src/lib.rs.
pub mod Types
pub mod Storage
pub mod Admin
pub mod Lifecycle
pub mod Positions
pub mod Advance
pub mod Calls
pub mod Invariant
pub mod Effects
pub mod Keeps
pub mod Sweep
pub mod Scan
pub mod Histories
pub mod Settled
pub mod Fairness
pub mod Changes
pub mod Audit
pub mod Authority
pub mod OnHost
pub mod Exact
pub mod Progress
pub mod Liveness
pub mod Faults
pub mod Runs
pub mod Complete
pub mod Restart
pub mod Batch
mod Tests
