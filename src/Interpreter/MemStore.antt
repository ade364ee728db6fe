-- ===== src/Interpreter/MemStore.antt =====
-- crates/mangle-interpreter/src/lib.rs, `MemStore` and its `impl Store`: the in-memory store.
pub mod State
pub mod Index
pub mod Reads
pub mod Writes
pub mod Merge
pub mod Facts
pub mod Postings
pub mod Tables
pub mod Scans
pub mod Insert
pub mod Merged
pub mod Removal
pub mod Removed
pub mod Retract
pub mod StaleIndex
