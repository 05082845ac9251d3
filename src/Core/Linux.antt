-- ===== src/Core/Linux.antt =====
-- src/core/linux: what runs an application on a device or on a recording, and its configuration.
pub mod Runner
pub mod FileRunner
pub mod DeviceRunner
pub mod ConfigLoader
pub mod Ready
