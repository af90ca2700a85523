-- ===== src/Repositories/Instances.antt =====
-- The requests of repositories/instances.py that start work on an existing instance.
pub mod Requests
pub mod Creation
pub mod Placing
pub mod Slugs
pub mod Created
pub mod Staging
pub mod Queueing
pub mod Exclusion
