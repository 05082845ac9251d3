-- ===== src/Ipts.antt =====
-- src/ipts: the data of the touch controller, its parser, and the device.
pub mod Data
pub mod Parser
pub mod Device
