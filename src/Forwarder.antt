-- ===== src/Forwarder.antt =====
-- devil/devil/android/forwarder.py
pub mod Ports
pub mod Host
pub mod Instance
pub mod Unmap
pub mod Process
mod Inverse
mod Picked
pub mod Pairing
pub mod Sweep
pub mod Devices
pub mod Kept
pub mod MapPairs
pub mod Reach
mod Tests
pub mod Mapping
