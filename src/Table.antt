-- ===== src/Table.antt =====
-- src/lws_table.c
pub mod Size
pub mod Defs
pub mod Find
pub mod Insert
pub mod Ops
pub mod Cycle
pub mod Lookup
pub mod Brent
pub mod Moves
pub mod Placing
pub mod Queue
pub mod Store
pub mod Prime
pub mod Valid
pub mod Spec
pub mod Remove
pub mod Get
pub mod Sizes
pub mod Content
pub mod Rehash
pub mod Update
pub mod Add
pub mod Evict
pub mod Adding
pub mod Set
pub mod Create
pub mod Small
pub mod Ascii
mod Tests
pub mod Seed
