-- ===== src/Json/Proofs.antt =====
-- What is proved of icecreme/json.c.
pub mod Total
pub mod Steps
pub mod Safe
pub mod Puts
pub mod Writer
pub mod Digits
pub mod Numbers
pub mod Reals
pub mod Strings
pub mod Heaps
pub mod Parts
pub mod Texts
pub mod Reads
pub mod RoundTrip
