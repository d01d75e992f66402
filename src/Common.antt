-- ===== src/Common.antt =====
-- The crate `common`, which the orchestrator and the node client share.
pub mod Float64
pub mod Crypto
pub mod Identity
pub mod Types
pub mod Credits
mod Tests
