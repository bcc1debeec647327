-- ===== src/Http.antt =====
-- src/lws_http.c: the status table and its lookup by code.
pub mod Status
pub mod Lookup
mod Tests
