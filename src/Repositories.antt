-- ===== src/Repositories.antt =====
-- The transactions that the HTTP API runs (src/coder_manager/repositories). A transaction takes the
-- database to a reply: it commits a new database with its result, or it rolls back with an error.
-- The locks that a repository takes make its transaction one atomic step here.
pub mod Reply
pub mod Jobs
pub mod Requested
pub mod Databases
pub mod Instances
pub mod Assignments
pub mod Members
pub mod Templates
pub mod Parameters
pub mod Images
pub mod Kubernetes
pub mod Workspaces
pub mod Capacity
