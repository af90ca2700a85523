-- ===== src/Repositories/Workspaces.antt =====
-- WorkspaceRepository (repositories/workspaces.py).
pub mod Parameters
pub mod Choice
pub mod Resolution
pub mod Requests
pub mod Staging
pub mod Queueing
