-- ===== src/Profiler.antt =====
-- src/lws_profiler.c, src/lws_profiler.h: the profiler of the functions of Lua.
pub mod Clock
pub mod Hook
pub mod Depth
pub mod Balance
pub mod Sync
pub mod Totals
mod Tests
