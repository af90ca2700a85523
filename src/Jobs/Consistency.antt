-- ===== src/Jobs/Consistency.antt =====
-- The link between a resource and its job: a resource that names a job is the resource of that job,
-- and the two have the same status.
pub mod Settling
pub mod Transactions
pub mod Requests
pub mod Queued
