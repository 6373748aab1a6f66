-- ===== src/Flags.antt =====
-- The command line flags of Chrome on a device: devil/devil/android/flag_changer.py.
pub mod Chars
pub mod Parse
pub mod Quote
mod Steps
pub mod Device
pub mod Changer
mod Sets
pub mod Stack
pub mod Enforce
pub mod Init
pub mod Total
mod Tests
pub mod Trailing
pub mod RoundTrip
mod Returns
