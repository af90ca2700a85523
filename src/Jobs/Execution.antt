-- ===== src/Jobs/Execution.antt =====
-- The transactional ownership helpers for durable steps (tasks/common/execution.py). Each function
-- is one transaction on the database: it commits the result, or it leaves the database alone.
mod Ownership
mod Transitions
pub mod Resources
pub mod Fencing
pub mod Progress
pub mod Steps
unfoldable pub use Ownership.*
unfoldable pub use Transitions.*
