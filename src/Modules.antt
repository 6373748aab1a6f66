-- ===== src/Modules.antt =====
-- common/py_vulcanize/py_vulcanize/module.py
pub mod Load
pub mod Order
pub mod Depth
mod Tests
