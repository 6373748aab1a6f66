-- ===== src/Locks.antt =====
-- The pseudo lock of a file, in common/py_utils/py_utils/cloud_storage.py.
pub mod Steps
pub mod Invariant
pub mod Exclusion
mod Tests
