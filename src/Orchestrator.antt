-- ===== src/Orchestrator.antt =====
-- The crate `orchestrator`: an HTTP service over a PostgreSQL database and a Redis stream.
pub mod Error
pub mod Db
pub mod Privacy
pub mod Validator
pub mod Dag
pub mod TaskManager
pub mod Invariant
pub mod Auth
pub mod RateLimit
pub mod Routes
pub mod Router
pub mod Service
pub mod Tests
