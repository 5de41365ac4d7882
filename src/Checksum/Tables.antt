-- ===== src/Checksum/Tables.antt =====
-- The lookup tables of src/checksum.c, copied entry by entry.
mod Short
mod Ccitt
mod Ansi
mod Wide
pub use Short.*
pub use Ccitt.*
pub use Ansi.*
pub use Wide.*
