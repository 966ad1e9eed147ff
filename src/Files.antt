-- ===== src/Files.antt =====
-- core/file_system: FileSystemService, which stores the files of entities under a root directory.
pub mod Path
pub mod Disk
pub mod Names
pub mod Storage
pub mod Root
pub mod Stored
pub mod Atomic
pub mod Tests
