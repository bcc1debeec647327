-- ===== src/Response.antt =====
-- The answer to a request in src/lws_module.c
pub mod Defs
pub mod Cookies
pub mod Headers
pub mod Framing
pub mod Folding
pub mod Attributes
pub mod Unfolding
pub mod Errors
pub mod Stream
pub mod Finish
pub mod Open
pub mod Answer
pub mod Once
mod Tests
pub mod Announced
