-- ===== src/Requests.antt =====
-- The admission of requests in src/lws_module.c
pub mod Ops
pub mod Count
pub mod Invariant
pub mod Handlers
pub mod Tasks
pub mod Reach
pub mod Failure
mod Tests
pub mod Body
pub mod Conf
pub mod Files
pub mod Merge
pub mod Joined
