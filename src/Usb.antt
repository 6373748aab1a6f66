-- ===== src/Usb.antt =====
-- devil/devil/utils/find_usb_devices.py and usb_hubs.py.
pub mod Nodes
pub mod Lines
pub mod Reading
pub mod Hubs
pub mod Tty
pub mod Ports
mod Paths
mod Mapped
mod Found
mod Counted
mod Total
mod Tests
