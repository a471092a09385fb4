-- ===== src/Secure.antt =====
-- Secrets in memory: include/duckpass/secure_allocator.h and src/protected_string.cpp.
pub mod Buffer
pub mod Protected
