-- ===== src/Loader.antt =====
-- The loader of bytecode files, icecreme/loader.c.
pub mod State
pub mod Primitives
pub mod Globals
pub mod Datum
pub mod Template
pub mod Code
pub mod Validate
pub mod Spec
pub mod Proofs
pub mod Tests
