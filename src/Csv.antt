-- ===== src/Csv.antt =====
-- (creme csv): icecreme/csv.c.
pub mod Parse
pub mod Write
pub mod Builtins
pub mod Spec
pub mod Proofs
pub mod Tests
