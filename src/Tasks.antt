-- ===== src/Tasks.antt =====
-- The bodies of steps and of periodic tasks (src/coder_manager/tasks), over the transactions of the
-- jobs.
pub mod Removal
pub mod Marking
pub mod Updating
pub mod Finalizing
pub mod Settling
pub mod Retrying
