-- ===== src/Core.antt =====
-- The core module (core/).
pub mod Errors
pub mod MemoryStore
