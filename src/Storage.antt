-- ===== src/Storage.antt =====
-- storage/: the storages that hold the data in files.
pub mod Disk
pub mod Pool
pub mod Replacer
