-- ===== src/Monitor.antt =====
-- src/lws_monitor.c, src/lws_monitor.h: the monitor location.
pub mod Defs
pub mod Body
pub mod Pairs
pub mod Sound
pub mod Content
pub mod Bounds
mod Tests
