-- ===== src/ArrayBackend/Migration.antt =====
-- ArrayMigrationHandle, startMigration and recover of src/backends/array.cpp. A file is its bytes;
-- the temporary file's name and the failures of writing it are left out.
use mochi_rkv.Prelude.{
  ℕ, zero, suc, ◌+◌, ◌-◌, true, false, List, [], ◌∷◌, ◌++◌, length, take, replicate, Option, none,
  some, ◌==◌, if◌then◌else◌,
}
use mochi_rkv.Common.{Bytes, Status, success, migrated, invalid_arg, io_error, key_not_found, slice}
use mochi_rkv.Bytes.Codec.{to_le, of_le}
use mochi_rkv.MapBackend.Migration.{MigrationHandle, read, sizeof_size, ◌>>=◌}
use mochi_rkv.ArrayBackend.{Collection, Collections, ArrayDatabase, find, replace, new_collection}
use mochi_rkv.ArrayBackend.Docs.{copy_to}

-- The documents of a collection: none for a read outside of its vectors.
unfoldable pub documents_image : Bytes → List ℕ → List ℕ → Option Bytes
unfolding to_le
documents_image bytes [] offsets = some []
documents_image bytes (n ∷ sizes) [] = none
documents_image bytes (n ∷ sizes) (off ∷ offsets) = do
  rest ← documents_image bytes sizes offsets
  doc ← (if n == key_not_found then some [] else slice bytes off n)
  some (to_le sizeof_size n ++ (doc ++ rest))

unfoldable pub collections_image : Collections → Option Bytes
unfolding to_le documents_image
collections_image [] = some []
collections_image ((name, c) ∷ cs) = do
  rest ← collections_image cs
  docs ← documents_image c.bytes c.sizes c.offsets
  some (
      to_le sizeof_size (length name)
      ++ (name ++ (to_le sizeof_size (length c.sizes) ++ (docs ++ rest))))

-- The file that the constructor of the handle writes.
unfoldable pub snapshot : Collections → Option Bytes
unfolding to_le collections_image
snapshot cs = do image ← collections_image cs; some (to_le sizeof_size (length cs) ++ image)

-- The handle, none for a read outside of the vectors.
unfoldable pub start_migration : ArrayDatabase → Status × Option (Option MigrationHandle)
unfolding snapshot
start_migration db = if db.has_migrated then (migrated, none) else (
  success,
  some (do file ← snapshot db.collections; some (record { file = file; cancelled = false })),
)

-- ~ArrayMigrationHandle
unfoldable pub close_migration : MigrationHandle → ArrayDatabase → ArrayDatabase
close_migration h db = if h.cancelled then db else record { collections = []; has_migrated = true }

-- m_data.resize(n)
abbrev pub resize : ℕ → Bytes → Bytes
resize n bytes = take n bytes ++ replicate (n - length bytes) 0

-- The loop over the documents of a collection. Here and below none is a file that ends early: the
-- source does not look at the state of the stream, and goes on with sizes that it has not read.
unfoldable pub recover_docs : ℕ → ℕ → Bytes → Collection → Option (Bytes × Collection)
unfolding read of_le copy_to
recover_docs zero doc_offset file c = some (file, c)
recover_docs (suc n) doc_offset file c = do
  (size_image, r1) ← read sizeof_size file
  let doc_size = of_le size_image
  let c' = record c { sizes = c.sizes ++ doc_size ∷ []; offsets = c.offsets ++ doc_offset ∷ [] }
  let later = recover_docs n
  if doc_size == key_not_found then later doc_offset r1 c' else do
    (doc, r2) ← read doc_size r1
    bytes ← copy_to (resize (doc_offset + doc_size) c.bytes) doc_offset doc
    later (doc_offset + doc_size) r2 (record c' { bytes = bytes })

-- m_collections.emplace(name, ...): the collection of the name, which is made if there is none.
abbrev pub emplaced : Bytes → Collections → Collections
emplaced name cs = elim (find name cs) [ none ↦ (name, new_collection) ∷ cs | some c ↦ cs ]

abbrev pub found_or_new : Bytes → Collections → Collection
found_or_new name cs = elim (find name cs) [ none ↦ new_collection | some c ↦ c ]

-- The loop over the collections.
unfoldable pub recover_collections : ℕ → Bytes → Collections → Option Collections
unfolding read of_le find replace recover_docs
recover_collections zero file cs = some cs
recover_collections (suc n) file cs = do
  let later = recover_collections n
  (name_size, r1) ← read sizeof_size file
  (name, r2) ← read (of_le name_size) r1
  (coll_size, r3) ← read sizeof_size r2
  (r4, c) ← recover_docs (of_le coll_size) 0 r3 (found_or_new name cs)
  later r4 (replace name c (emplaced name cs))

-- recover: the list of the files' contents, none for a file that cannot be opened, and the status of
-- `create` on the configuration. The outer option is none for a file that ends early.
unfoldable pub recover : Status → List (Option Bytes) → Option (Status × Option ArrayDatabase)
unfolding read of_le recover_collections
recover created (some file ∷ []) = elim created [
  | success ↦ do
    (num, r1) ← read sizeof_size file
    cs ← recover_collections (of_le num) r1 []
    some (success, some (record { collections = cs; has_migrated = false }))
  | st ↦ some (st, none)
]
recover created (none ∷ []) = some (io_error, none)
recover created _ = some (invalid_arg, none)
