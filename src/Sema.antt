-- ===== src/Sema.antt =====
-- The semantic analysis of source/sema.c: so far its conversions, on the types that it gives a node.
pub mod Convert
pub mod Unify
pub mod Scalars
