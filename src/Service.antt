-- ===== src/Service.antt =====
-- src/vault_service.cpp
pub mod State
pub mod Merge
pub mod Save
pub mod Rekey
pub mod Entries
pub mod Search
