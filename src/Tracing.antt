-- ===== src/Tracing.antt =====
-- systrace/systrace/tracing_controller.py
pub mod Agents
pub mod Controller
pub mod Answers
pub mod Protocol
pub mod Loops
pub mod Children
mod Tests
