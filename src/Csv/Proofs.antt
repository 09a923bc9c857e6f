-- ===== src/Csv/Proofs.antt =====
-- What the reader and the writer of icecreme/csv.c do.
pub mod Buffer
pub mod Writer
pub mod Cells
pub mod Same
pub mod Rows
pub mod RoundTrip
pub mod Total
pub mod CarriageReturn
pub mod Tables
