-- ===== src/Wal.antt =====
-- crates/mangle-wal: the log's binary codec.
pub mod Reader
pub mod Codec
pub mod Membership
pub mod Entry
