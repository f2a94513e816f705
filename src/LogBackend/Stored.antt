-- ===== src/LogBackend/Stored.antt =====
-- What the clients see of a collection of the log backend, and the collections whose files hold what
-- their metadata promise.
use mochi_rkv.Prelude.{
  ℕ, ◌+◌, ◌*◌, ◌≤◌, ◌<◌, ◌≡◌, Bool, true, false, List, [], ◌∷◌, length, Option, none, some, ◌==◌,
  if◌then◌else◌,
}
use mochi_rkv.Common.{Bytes, key_not_found}
use mochi_rkv.Bytes.Codec.{of_le}
use mochi_rkv.LogBackend.Collection.{EntryMetadata, Collection, chunk_file, entry_size, next_free}
use mochi_rkv.LogBackend.Files.{block}

abbrev pub is_live : EntryMetadata → Bool
is_live e = if e.size == key_not_found then false else true

-- The document of an entry.
abbrev pub doc_in : (ℕ → Bytes) → EntryMetadata → Option Bytes
doc_in files e =
    if e.size == key_not_found then none else some (block (files e.chunk) e.offset e.size)

abbrev pub docs_in : (ℕ → Bytes) → List EntryMetadata → List (Option Bytes)
docs_in files [] = []
docs_in files (e ∷ es) = doc_in files e ∷ docs_in files es

-- The documents by their ids.
abbrev pub view : Collection → List (Option Bytes)
view c = docs_in (chunk_file c) c.entries

-- A document lies behind the first 8 bytes of its chunk and inside of it, and in the last chunk
-- before the next free offset.
abbrev pub Holds : ℕ → ℕ → ℕ → EntryMetadata → Type 0
Holds chunk_size last next_offset e =
    e.size == key_not_found ≡ false
    → (8 ≤ e.offset)
      × (e.offset + e.size ≤ chunk_size)
      × (e.chunk ≤ last)
      × (e.chunk ≡ last → e.offset + e.size ≤ next_offset)

abbrev pub AllHold : ℕ → ℕ → ℕ → List EntryMetadata → Type 0
AllHold chunk_size last next_offset [] = Unit
AllHold chunk_size last next_offset (e ∷ es) =
    Holds chunk_size last next_offset e × AllHold chunk_size last next_offset es

abbrev pub live : List EntryMetadata → ℕ
live [] = 0
live (e ∷ es) = (if e.size == key_not_found then 0 else 1) + live es

-- The offset at which the next document goes.
abbrev pub free_offset : Collection → ℕ
free_offset c = next_free (of_le (block (chunk_file c c.header.last_chunk_id) 0 8))

-- The collection, apart from the cell of the next free offset in the last chunk.
pub record IsLaid (next_offset : ℕ) (c : Collection) : Type 0 where
  pub small : c.chunk_size < key_not_found
  pub sized : (i : ℕ) → length (chunk_file c i) ≡ c.chunk_size
  pub from_eight : 8 ≤ next_offset
  pub in_chunk : next_offset ≤ c.chunk_size
  pub entered : length c.entries ≡ c.header.next_id
  pub mapped : entry_size + c.header.next_id * entry_size ≤ c.meta_size
  pub with_entry : 2 * entry_size ≤ c.meta_size
  pub held : AllHold c.chunk_size c.header.last_chunk_id next_offset c.entries
  pub counted : c.header.coll_size ≡ live c.entries

abbrev pub IsStored : Collection → Type 0
IsStored c = IsLaid (free_offset c) c
