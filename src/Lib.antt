-- ===== src/Lib.antt =====
-- Yokan (mochi-rkv): a key/value and document store with exchangeable backends, served over RPC.
--
-- The parts. A client's request reaches a handler of the provider (src/server), which hands buffers
-- of keys, sizes and values to a backend through DatabaseInterface (include/yokan/backend.hpp). A
-- backend (src/backends) keeps the map, listings apply a filter (src/server/util/filters.cpp), and
-- calls that wait for a key use the watcher (include/yokan/watcher.hpp). The provider takes the buffers
-- of its bulk transfers from a cache (src/buffer).
--
-- The files.
-- Prelude: library names and small lemmas.
-- Common: include/yokan/common.h, backend.hpp and usermem.hpp: Status, the sentinels of size_t, the
--   modes as records of flags (`mode_of` reads the integer), the caller's buffers.
-- Bytes: memcmp and DefaultMemCmp, with the order in Bytes/Order, and the 8-byte images of size_t in
--   Bytes/Codec.
-- OrderedMap: what src/backends/map.cpp uses of std::map: find, emplace, a change in place, erase, the
--   bounds, over a list of entries in the order of the comparator.
-- Filters: the filters, _ensureBigEndian in Filters/Endian.
-- Watcher: KeyWatcher.
-- MapBackend: src/backends/map.cpp. Read has exists, length, get and fetch, Write has put and erase,
--   Listing has listKeys, listKeyValues and iter, Migration has the snapshot, its handle and recover.
--   The other children hold the proofs, Tests the runs at small inputs.
--
-- ArrayBackend: src/backends/array.cpp: the collections and the operations on them. Docs has docSize,
--   docStore, docUpdate, docLoad, docFetch and docErase, Listing has docIter and docList, Migration
--   the snapshot and recover. Stored says what clients see of a collection and what its vectors
--   promise; Store, Loads, Update, Erase, Vectors and Recovered hold the proofs. The unordered_map is a
--   list of named collections. A file that ends early is the outcome none of its recover.
--
-- LogBackend: src/backends/log.cpp. File has the reads and writes of a mapped file, Cache the chunks
--   that are kept open, Collection append, erase, read and fetch, Update the rounds of update, Database
--   the collections and the operations on documents, the directory and the migration, Listing docIter
--   and docList. Files, Stored, Chunks, Placed, Append, Reads, Erase, Iterated and Broken hold the
--   proofs. System calls succeed and a file is its bytes. The metadata file is its header, its entries
--   and the size that is mapped, and sums of its offsets do not wrap. Every chunk keeps the mapped
--   bytes of one file, whether it is taken from the cache or opened. `left` are the files that collDrop
--   leaves behind, which collCreate opens again. docIter has fuel: one round more than the ids from the
--   first one on is enough. A directory that is opened again with another size of chunks is not
--   modelled.
--
-- DocMixin: include/yokan/doc-mixin.hpp over MapBackend: the cache of metadata and the operations on
--   collections, Keys with the keys of documents, Docs with docSize, docStore, docUpdate, docLoad,
--   docFetch and docErase, Listing with docList and docIter. Order, Metadata, Requests, Stored, Updated
--   and Created hold the proofs. The m_lock is held but for the two windows of docStore, which are
--   arguments.
--
-- OrderedSet, SetBackend: what src/backends/set.cpp uses of std::set, and set.cpp: Read, Write, Listing
--   and Migration as for MapBackend, Tests the runs. Embedding, Listed, Puts, Notified, Snapshot and
--   Refined hold the proofs; `as_map` is the map database with the same keys and empty values.
--
-- HashMap, UnorderedMap: what src/backends/unordered_map.cpp uses of std::unordered_map, and
--   unordered_map.cpp: Read, Write and Migration. The order in which the table is walked is an argument
--   of the migration. Related says when it is alike to a map database; Rounds, Puts, Packed and
--   Bisimilar hold the proofs.
--
-- BulkCache: src/buffer: the order of buffers and the sets and maps over it, Lru the cache that frees the
--   oldest buffers, KeepAll the one that keeps all and the default one that keeps none. A node of a
--   std::list has a number, which stands for its iterator. Clients has the steps of get and release
--   with the buffers that callers hold; Order, Queue, Linked, Evicted, Addresses, Sessions and Reached
--   hold the proofs. The address that new returns and the outcome of margo_bulk_create are arguments.
--
-- Client: src/client/put.cpp and get.cpp: what a function checks and the call that it makes, with the
--   region that it exposes.
--
-- Server: src/server: put.cpp, erase.cpp and count.cpp in Put, get.cpp in Get, exists.cpp and length.cpp
--   in Exists, over any database that fills the record DatabaseInterface; Map fills it with MapBackend.
--   Margo is the record Transport, with what Mercury documents of a transfer in IsTransport; the buffers
--   come from `cache_get`; the record Rpc says what the macros CHECK_* find before the input is read.
--   A wrapper over bytes behind the buffer is a fault. Layout, Sent, Arrived, Asked and Missing hold the
--   proofs. On the way to the client, Pushes are the transfers, the last first; get.cpp runs its two at
--   the same time.
--
-- The choices. A byte is a number, a buffer a list of bytes with an address. A size_t is a number, and
-- sums of sizes wrap at 2 ^ 64 as in the source (`add_size`). A read outside of a buffer is the outcome
-- `fault`; what a call writes is the list of its copies, each with its offset (`Slot`), so that a
-- write outside of the output buffer can be seen. A call returns what it wrote before it failed, and
-- the state that it leaves. A call that waits takes the list of its wakes: for each, the status of
-- waitKey and the database when the lock is held again; with no wake left its outcome is `blocked`.
-- The lock is held through a call but for these waits and the window of a consuming get, which is an
-- argument. The comparator is a field of the state; the theorems ask of it that it is a strict total
-- order, as the default one is. A file is its bytes, without failures of writing.
-- The fuel of recover is one more than the length of the file, which each round shortens.
--
-- Not modelled: JSON configurations, allocators, the loading of libraries, memory that runs out but in
-- the caches of buffers; Margo and the handlers of listings, fetch, iter, documents and migration, with
-- the provider, and the functions of the client but those of put and get, where null arguments are left
-- out; the backends over other libraries (rocksdb, leveldb, lmdb and others). Nor are docList and docIter
-- of the mixin over a database that is not sorted, the null and unordered_set backends, and
-- FilterFactory.
pub mod ArrayBackend
pub mod BulkCache
pub mod Bytes
pub mod Client
pub mod Common
pub mod DocMixin
pub mod Filters
pub mod HashMap
pub mod LogBackend
pub mod MapBackend
pub mod OrderedMap
pub mod OrderedSet
pub mod Prelude
pub mod SetBackend
pub mod Server
pub mod UnorderedMap
pub mod Watcher
