-- ===== src/NodeClient.antt =====
-- The crate `node-client`: the program of a node.
pub mod Signing
pub mod Runner
pub mod Effect
pub mod Config
pub mod Commands
pub mod Program
pub mod Terminal
pub mod Http
pub mod Worker
pub mod Disk
pub mod Wallet
mod Tests
