-- ===== src/Orchestrator/Routes.antt =====
-- orchestrator/src/routes: the handlers of the HTTP service.
pub mod Tasks
pub mod Nodes
pub mod Jobs
pub mod Listings
