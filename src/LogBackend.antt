-- ===== src/LogBackend.antt =====
-- src/backends/log.cpp: the collections of documents in memory-mapped files. The system's calls
-- (open, ftruncate, mmap) succeed; a mapping of a file is the file's bytes, so a chunk that is
-- mapped again, by the cache of chunks or as the last chunk, is the same bytes.
pub mod File
pub mod Collection
pub mod Update
pub mod Database
pub mod Listing
pub mod Cache
pub mod Files
pub mod Stored
pub mod Chunks
pub mod Placed
pub mod Append
pub mod Reads
pub mod Erase
pub mod Iterated
pub mod Broken
pub mod Tests
