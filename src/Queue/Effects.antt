-- ===== src/Queue/Effects.antt =====
-- What each entry point of the queue contract has checked and done when it returns.
pub mod Lifecycle
pub mod Admin
pub mod Positions
pub mod Advance
