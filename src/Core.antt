-- ===== src/Core.antt =====
-- src/core/generic: the application, its configuration, and the stylus of newer devices.
pub mod Config
pub mod Device
pub mod Dft
pub mod Application
pub mod Linux
