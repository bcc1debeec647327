-- ===== src/Library.antt =====
-- src/lws_lib.c
pub mod Unescape
pub mod Decode
pub mod Headers
pub mod Args
pub mod Fields
pub mod Script
pub mod Flush
pub mod Run
pub mod Parts
pub mod Order
pub mod Success
pub mod Sealed
mod Tests
