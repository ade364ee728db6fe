-- ===== src/Interpreter/Context.antt =====
-- crates/mangle-interpreter/src/lib.rs: what the interpreter works with, `Env` and the provenance
-- recorder; and the operations of the `Store` trait of crates/mangle-common/src/lib.rs that a plan calls.
use mangle_rs.Prelude.{ℕ, Bool, Option, List, nat_eq, list_eq, pair_eq, Str, Outcome, ok, ℤ, int_eq}
use mangle_rs.Prelude.Map.{Map}
use mangle_rs.Common.Value.{Value}
use mangle_rs.Interpreter.Cells.{Tuple}
use mangle_rs.Interpreter.MemStore.State.{MemStore}
use mangle_rs.Interpreter.MemStore.Reads
use mangle_rs.Interpreter.MemStore.Writes
use mangle_rs.Ir.{Ir}

-- What execution is handed: the language's float arithmetic on bit patterns, the built-in functions
-- (`Functions.eval_function` fills that field), and the order in which a hash map yields the groups put
-- into it.
pub record Context : Type 0 where
  pub ir : Ir
  pub as_f64 : ℤ → ℕ
  pub f64_zero : ℕ
  pub f64_add : ℕ → ℕ → ℕ
  pub f64_max : ℕ → ℕ → ℕ
  pub f64_min : ℕ → ℕ → ℕ
  pub eval_function : Str → Tuple → Outcome Value
  pub yielded : List (Tuple × List Tuple) → List (Tuple × List Tuple)

abbrev pub Env : Type 0
Env = Map ℕ Value

-- The operations of the `Store` trait that a plan calls.
pub record Store (S : Type 0) : Type 0 where
  pub scan : S → Str → Outcome (List Tuple)
  pub scan_delta : S → Str → Outcome (List Tuple)
  pub scan_next_delta : S → Str → Outcome (List Tuple)
  pub scan_index : S → Str → ℕ → Value → Outcome (List Tuple)
  pub insert : S → Str → Tuple → Outcome (S × Bool)

instance abbrev pub mem_store : Store MemStore
mem_store = record {
  scan = Reads.scan;
  scan_delta = Reads.scan_delta;
  scan_next_delta = Reads.scan_next_delta;
  scan_index = Reads.scan_index;
  insert = λ s relation tuple. ok (Writes.insert s relation tuple);
}

pub record ProvenanceEntry : Type 0 where
  pub derived : Str × Tuple
  pub premises : List (Str × Tuple)

pub record ProvenanceRecorder : Type 0 where
  pub entries : List ProvenanceEntry
  pub active_premises : List (Str × Tuple)

-- The interpreter's store and recorder, and the environment that `exec_op` is handed.
pub record Machine (S : Type 0) : Type 0 where
  pub store : S
  pub provenance : Option ProvenanceRecorder
  pub env : Env
