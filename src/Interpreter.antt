-- ===== src/Interpreter.antt =====
-- crates/mangle-interpreter/src/lib.rs: the interpreter of physical plans and its in-memory store.
pub mod Cells
pub mod MemStore
pub mod Text
pub mod Context
pub mod Eval
pub mod Aggregates
pub mod Grouping
pub mod Premises
pub mod Exec
pub mod Negation
pub mod Functions
