-- ===== src/Expect.antt =====
-- common/py_utils/py_utils/expectations_parser.py
pub mod Matcher
pub mod Parser
mod Parts
mod Printed
mod Declared
mod Tests
