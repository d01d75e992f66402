-- ===== src/Orchestrator/TaskManager.antt =====
-- orchestrator/src/task_manager.rs: the dispatcher, the completion and failure of sub-tasks, and the
-- housekeeping. Times are the `NOW()` of each call.
pub mod Dispatch
pub mod Finish
pub mod Housekeeping
