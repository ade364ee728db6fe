-- ===== src/Ir.antt =====
-- crates/mangle-ir: the interners, and the physical operations that the interpreter runs.
pub mod Interner
pub mod Physical
use mangle_rs.Prelude.{ℕ, Str, Outcome}

-- The tables of `Ir` that the execution of a plan reads.
pub record Ir : Type 0 where
  pub name_store : Interner.Interner
  pub string_store : Interner.Interner

unfoldable pub resolve_name : Ir → ℕ → Outcome Str
resolve_name ir id = Interner.get ir.name_store id

unfoldable pub resolve_string : Ir → ℕ → Outcome Str
resolve_string ir id = Interner.get ir.string_store id
