-- ===== src/Tests.antt =====
-- The theorems at concrete inputs.
mod Data
mod Workers
mod Requests
mod Assignments
mod Members
mod Workspaces
mod Pool
mod Catalog
mod Histories
mod Delivery
mod Credentials
mod Updating
mod Retrying
