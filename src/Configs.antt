-- ===== src/Configs.antt =====
-- The writable side of dependency_manager: uploader.py and base_config.py.
pub mod Storage
pub mod Uploader
pub mod Rollback
pub mod Restored
pub mod Data
pub mod Opened
pub mod Update
pub mod Jobs
pub mod Atomic
pub mod Pending
pub mod Lost
pub mod Infos
pub mod Described
pub mod Yields
mod Tests
