-- ===== src/Radix.antt =====
-- The byte trie with parameters: icecreme/radix.c.
pub mod Node
pub mod Add
pub mod Find
pub mod Builtins
pub mod Spec
pub mod Proofs
pub mod Tests
