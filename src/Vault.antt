-- ===== src/Vault.antt =====
-- src/vault.cpp.
pub mod Wire
pub mod Entries
pub mod Serial
pub mod File
