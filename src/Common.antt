-- ===== src/Common.antt =====
-- crates/mangle-common/src/lib.rs: the values that both execution modes share.
pub mod Value
