-- ===== src/Analysis/Strata.antt =====
-- crates/mangle-analysis/src/stratification.rs: the walks, the graph, the strata and their order, each with
-- the lemmas about it; `Correct` has what `stratify` promises.
pub mod Walk
pub mod Members
pub mod Grown
pub mod Finish
pub mod Collect
pub mod Graph
pub mod Order
pub mod Ranges
pub mod Rotate
pub mod Edges
pub mod Layers
pub mod Sccs
pub mod Sort
pub mod Heights
pub mod Permute
pub mod Numbers
pub mod Accept
pub mod Reject
pub mod Sorted
pub mod Depends
pub mod Correct
