-- ===== src/Db.antt =====
-- crates/mangle-db: what the database does around the evaluation.
pub mod Predicate
