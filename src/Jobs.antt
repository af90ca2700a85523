-- ===== src/Jobs.antt =====
-- Durable background jobs (src/coder_manager/tasks/common).
pub mod Registry
pub mod Execution
pub mod Workers
pub mod Consistency
