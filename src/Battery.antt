-- ===== src/Battery.antt =====
-- The battery of an Android device: devil/devil/android/battery_utils.py.
pub mod Device
pub mod Profiles
pub mod Wait
pub mod Info
pub mod Charging
pub mod Level
pub mod Csv
pub mod Power
pub mod Checked
pub mod Bounds
pub mod Charged
mod Tests
