-- ===== src/Generator.antt =====
-- gen/table.c, which computes the sizes of src/lws_table.c.
pub mod Primes
mod Tests
