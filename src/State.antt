-- ===== src/State.antt =====
-- src/lws_state.c
pub mod Memory
pub mod Defs
pub mod Ops
mod Tests
