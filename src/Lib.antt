-- ===== src/Lib.antt =====
-- Mangle in Rust: the evaluator's values, stores and plans.
--
-- A Mangle program is parsed and lowered to an IR, planned to physical operations, and run by an
-- interpreter that works on a store of facts.
--
--   Prelude            shared names, lists, equality, outcomes, integers, maps
--   Common             crates/mangle-common/src/lib.rs: `Value`, its equality and order
--   Ir                 crates/mangle-ir/src: the interner (`Store<K>`), `Ir`, the physical plans
--   Interpreter.Cells  crates/mangle-interpreter/src/lib.rs: `Cell`, `flatten_tuple` and its readers
--   Interpreter.MemStore
--                      the same file: `MemStore`, its indexes and operations
--   Interpreter.Eval, .Aggregates, .Grouping, .Premises, .Exec, .Negation
--                      the same file: operands, conditions, aggregates, and `exec_op` with hash joins,
--                      grouping and the provenance recorder, over the `Store` trait
--   Interpreter.Functions
--                      the same file: the built-in functions, with dates, times and durations, and
--                      `Display` of values (crates/mangle-common/src/lib.rs)
--   Db.Predicate       crates/mangle-db/src/predicate.rs and source.rs: the filters of a plan pushed to
--                      the sources
--   Wal                crates/mangle-wal/src/codec.rs: the log's binary codec
--   Analysis.NameTrie  crates/mangle-analysis/src/name_trie.rs: the trie of names
--   Analysis.Strata    crates/mangle-analysis/src/stratification.rs: the graph of dependencies, its
--                      components, and the order of the strata
--   Tests              all of it at concrete inputs
--
-- An i64 is an integer, an f64 its 64-bit pattern, a string its bytes. `Result` and panics are the
-- three outcomes `ok`, `err` and `panic`; indexing a vector out of range is `panic`. A hash map is a
-- function to options where the code only looks keys up, and an association list where it goes
-- through the entries, in the order of the list. A position passed by `&mut` is returned with the
-- result.
--
-- The facts that a store stands for are lists of tuples per relation: stable, new, and collected for
-- the next round (`Facts`). `Represents` says that the tables hold those facts in flat form, that a
-- relation's tuples have its number of columns, and that each index lists exactly the rows whose
-- column starts with the key.
--
-- Reading a flat row recurses on fuel: the number of cells and one more. Reading deeper than there
-- are cells stands past the end of the row, where the code panics too.
--
-- The walks of the stratification recurse on fuel: the number of nodes and one more. Each call marks a
-- node, so the unmarked ones bound the depth; `none` is a walk past its fuel or an index out of range,
-- and `stratify` never returns it.
--
-- A run of a plan is described by a relation, `Run`: bindings change, facts are inserted, and both
-- happen under a premise. An operation that fails yields its error only; what it had written by then
-- is left out. Recursion is on the plan and on the tuples of a scan, so execution has no fuel.
--
-- Parsing a duration recurses on fuel, the length of the text, which each round shortens. Decimal
-- numbers are written with at most twenty digits, enough for 64 bits.
--
-- Parameters: the conversion, arithmetic, parsing and writing of doubles, the quoting and replacing of
-- the language's strings, and the clock (`Context`, `Floats`), the codecs that a log entry calls
-- (`Codecs`), and the order in which a hash map yields
-- groups. Sums and products of integers wrap, as in a release build.
--
-- Not modelled: the parser, the other analysis passes, the driver, the virtual machine and the code
-- generator, the log store and replication, the servers and the bindings.
mod Prelude
pub mod Common
pub mod Ir
pub mod Interpreter
pub mod Analysis
pub mod Db
pub mod Wal
mod Tests
