-- ===== src/Compiler.antt =====
-- lib/compiler.c and lib/compiler.h.
pub mod Scopes
pub mod Literals
pub mod Blocks
pub mod Visit
pub mod Write
