-- ===== src/Export.antt =====
-- src/export_command.cpp: the two text formats.
pub mod Csv
pub mod Json
