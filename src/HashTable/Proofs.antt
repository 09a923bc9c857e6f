-- ===== src/HashTable/Proofs.antt =====
-- The hash table of icecreme/hashtable.c is a list of entries in the order of insertion.
pub mod Entries
pub mod Repoint
pub mod Compaction
pub mod Operations
pub mod Builtins
