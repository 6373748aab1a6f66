-- ===== src/TraceLog.antt =====
-- common/py_trace_event/py_trace_event/trace_event_impl/log.py
pub mod Events
pub mod Log
pub mod Adding
pub mod Session
pub mod Written
pub mod Closed
pub mod Whole
mod Tests
