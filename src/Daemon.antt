-- ===== src/Daemon.antt =====
-- src/apps/daemon: what the daemon tells the kernel.
pub mod Input
pub mod Uinput
pub mod Touch
pub mod Tilt
pub mod Stylus
pub mod Handlers
