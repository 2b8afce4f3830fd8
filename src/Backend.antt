-- ===== src/Backend.antt =====
-- The services of the backend, backend/src.
pub mod Enrollments
pub mod Escrows
pub mod Status
pub mod Mirror
pub mod Queues
pub mod Limiter
pub mod Indexer
pub mod Webhooks
mod Tests
