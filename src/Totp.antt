-- ===== src/Totp.antt =====
-- src/totp.cpp: Base32 secrets and RFC 6238 codes. HMAC-SHA1 is a parameter.
pub mod Base32
pub mod Code
