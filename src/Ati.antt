-- ===== src/Ati.antt =====
-- The compiler's support library, source/ati.
pub mod Strings
pub mod Variant
pub mod Vector
pub mod Table
pub mod PointerTable
pub mod StringTable
