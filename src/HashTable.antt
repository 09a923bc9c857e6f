-- ===== src/HashTable.antt =====
-- (creme hash-table): icecreme/hashtable.c.
pub mod Equal
pub mod IndexMap
pub mod Table
pub mod Builtins
pub mod Proofs
pub mod Tests
