-- ===== src/Apps.antt =====
-- src/apps: the applications besides the daemon.
pub mod Dump
