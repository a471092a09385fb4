-- ===== src/Storage.antt =====
-- src/local_storage.cpp and include/duckpass/local_storage.h: reading, locking and atomically replacing
-- a file. The answers of the operating system are arguments.
pub mod Disk
pub mod Read
pub mod Write
pub mod Lock
