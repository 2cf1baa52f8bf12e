-- ===== src/Libc.antt =====
-- The guest's C library, libc/.
pub mod Alloc
pub mod Str
