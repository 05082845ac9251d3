-- ===== src/Hid.antt =====
-- The HID descriptor parser, src/hid: usages, reports, the parser's state and its loop.
pub mod Report
pub mod State
pub mod Parser
