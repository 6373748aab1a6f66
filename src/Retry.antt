-- ===== src/Retry.antt =====
-- The loops that try a call again.
pub mod Loop
pub mod Bounds
mod Tests
