-- ===== src/Soroban.antt =====
-- The interface of the Soroban SDK to which the contracts are written.
pub mod Schema
pub mod Program
pub mod Exec
pub mod Host
