-- ===== src/Treelist/Proofs.antt =====
-- The proofs about the trees of icecreme/treelist.c, one file for each group of functions.
pub mod Ref
pub mod Push
pub mod Bulk
pub mod Rebalance
pub mod Concat
pub mod Ranges
pub mod Slice
pub mod Tree
pub mod Safe
pub mod Shapes
pub mod Builtins
pub mod Results
