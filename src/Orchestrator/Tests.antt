-- ===== src/Orchestrator/Tests.antt =====
-- Examples of orchestrator/src.
pub mod Fixtures
mod Examples
mod Rounds
mod Requests
mod Plans
mod Jobs
mod Machine
mod Private
pub mod Served
