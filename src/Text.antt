-- ===== src/Text.antt =====
-- Text formatting of the C++ standard library, as the program uses it.
pub mod Decimal
pub mod CString
