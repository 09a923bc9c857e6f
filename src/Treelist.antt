-- ===== src/Treelist.antt =====
-- The RRB trees of icecreme/treelist.c, and the builtins of (creme treelist) over them.
pub mod Node
pub mod Access
pub mod Bulk
pub mod Concat
pub mod Slice
pub mod Tree
pub mod Builtins
pub mod Mutable
pub mod Higher
pub mod Table
pub mod WellFormed
pub mod Proofs
pub mod Tests
