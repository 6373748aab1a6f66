-- ===== src/Deps.antt =====
-- The package dependency_manager/dependency_manager.
pub mod System
pub mod LocalPath
pub mod Cloud
pub mod Info
pub mod Manager
pub mod Fetch
pub mod Remote
mod Tests
