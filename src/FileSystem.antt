-- ===== src/FileSystem.antt =====
-- student-distrib/file_system.c and the structures of student-distrib/file_system.h: a read-only
-- image in the byte memory, its boot block (with the directory), its inodes and its data blocks.
-- `Layout` is the structures, `Data` reads a file's bytes, `Directory` finds and lists names.
-- Functions that write through a pointer take the memory and return the new one.
pub mod Layout
pub mod Data
pub mod Directory
mod Tests
