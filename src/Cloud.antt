-- ===== src/Cloud.antt =====
-- common/py_utils/py_utils/cloud_storage.py over the program gsutil.
pub mod Gsutil
pub mod Errors
pub mod Commands
pub mod Disabled
pub mod Files
pub mod Hash
pub mod Fetch
pub mod Locked
pub mod Fetched
mod World
mod Tests
