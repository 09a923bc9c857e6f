-- ===== src/Loader/Proofs.antt =====
-- What is proved of icecreme/loader.c.
pub mod Ends
pub mod Reading
pub mod Chunks
pub mod Globals
pub mod Checked
pub mod Loaded
pub mod Load
pub mod Words
