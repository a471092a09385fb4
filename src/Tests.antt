-- ===== src/Tests.antt =====
-- The theorems at concrete inputs.
mod Toy
mod Crypto
mod Vault
mod Storage
mod Totp
mod Ipc
mod Service
mod Agent
mod Export
mod Hibp
mod Entropy
mod Audit
mod Secure
mod Terminal
mod Shell
