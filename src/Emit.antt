-- ===== src/Emit.antt =====
-- The back end's byte buffer, source/emit/bytecode.c.
pub mod Buffer
pub mod Bytecode
