-- ===== src/Analysis.antt =====
-- crates/mangle-analysis: the checks on programs.
pub mod NameTrie
pub mod Strata
