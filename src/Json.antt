-- ===== src/Json.antt =====
-- (creme json), the reader and the writer of icecreme/json.c.
pub mod Buffer
pub mod Reader
pub mod Values
pub mod Writer
pub mod Spec
pub mod Decimal
pub mod Decoded
pub mod Proofs
pub mod Tests
