-- ===== src/Radix/Proofs.antt =====
-- Lookups and additions of icecreme/radix.c.
pub mod Find
pub mod Match
pub mod Tokens
pub mod Order
pub mod Precedence
pub mod Added
pub mod Kept
pub mod Count
