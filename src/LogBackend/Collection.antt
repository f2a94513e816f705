-- ===== src/LogBackend/Collection.antt =====
-- LogDatabase::Collection of src/backends/log.cpp: the metadata, append, erase, read, fetch and
-- entrySize. Offsets of the metadata file are those of a file that fits into memory, so their sums
-- do not wrap.
use mochi_rkv.Prelude.{
  ℕ, zero, suc, ◌+◌, ◌*◌, Bool, true, false, List, [], ◌∷◌, length, replicate, Option, none, some,
  ltb, leb, ◌==◌, if◌then◌else◌,
}
use mochi_rkv.Common.{
  sub_size, Bytes, Status, success, size_error, invalid_id, not_found, Ret, returned, fault, slice,
  key_not_found,
}
use mochi_rkv.Bytes.Codec.{to_le, of_le}
use mochi_rkv.LogBackend.File.{Read, write, read, extend}

-- struct EntryMetadata
pub record EntryMetadata : Type 0 where
  pub chunk : ℕ
  pub offset : ℕ
  pub size : ℕ
  pub allocated : ℕ

-- struct MetadataHeader. Its chunk_size is that of the collection, which the constructor writes.
pub record MetadataHeader : Type 0 where
  pub coll_size : ℕ
  pub next_id : ℕ
  pub last_chunk_id : ℕ

-- The metadata file is its header, its entries and the size that is mapped; entries that were never
-- written are zero. `chunks` are the files of the chunks by their ids.
pub record Collection : Type 0 where
  pub header : MetadataHeader
  pub entries : List EntryMetadata
  pub meta_size : ℕ
  pub chunks : List Bytes
  pub chunk_size : ℕ

abbrev pub empty_entry : EntryMetadata
empty_entry = record { chunk = 0; offset = 0; size = 0; allocated = 0 }

abbrev pub get_or {ℓ} : {A : Type ℓ} → A → List A → ℕ → A
get_or z [] i = z
get_or z (x ∷ xs) zero = x
get_or z (x ∷ xs) (suc i) = get_or z xs i

-- Places before `i` that are not there hold `z`.
abbrev pub put_at {ℓ} : {A : Type ℓ} → A → List A → ℕ → A → List A
put_at z [] zero v = v ∷ []
put_at z [] (suc i) v = z ∷ put_at z [] i v
put_at z (x ∷ xs) zero v = v ∷ xs
put_at z (x ∷ xs) (suc i) v = x ∷ put_at z xs i v

-- sizeof(MetadataHeader) == sizeof(EntryMetadata)
abbrev pub entry_size : ℕ
entry_size = 32

-- The end of the entry of an id.
abbrev pub entry_end : ℕ → ℕ
entry_end id = entry_size + id * entry_size + entry_size

-- writeEntryMetadata
unfoldable pub write_entry : ℕ → EntryMetadata → Collection → Status × Collection
unfolding extend
write_entry id entry c =
    let size =
      if ltb c.meta_size (entry_end id)
      then extend (2 * c.meta_size) c.meta_size
      else c.meta_size in
    if ltb size (entry_end id)
    then (size_error, record c { meta_size = size })
    else (success, record c { meta_size = size; entries = put_at empty_entry c.entries id entry })

-- readEntryMetadata: where it fails, the entry keeps the zeros that it is made with.
unfoldable pub read_entry : ℕ → Collection → Status × EntryMetadata
read_entry id c =
    if ltb c.meta_size (entry_end id)
    then (size_error, empty_entry)
    else (success, get_or empty_entry c.entries id)

-- The file of a chunk; opening a file that is not there makes one of zeros.
abbrev pub chunk_file : Collection → ℕ → Bytes
chunk_file c id = get_or (replicate c.chunk_size 0) c.chunks id

abbrev pub put_chunk : ℕ → Bytes → Collection → Collection
put_chunk id file c = record c { chunks = put_at (replicate c.chunk_size 0) c.chunks id file }

abbrev pub with_last : ℕ → Collection → Collection
with_last id c = record c { header = record c.header { last_chunk_id = id } }

-- getChunkFromID: none is the null pointer.
unfoldable pub get_chunk : ℕ → Collection → Option Bytes × Collection
get_chunk id c =
    let last = c.header.last_chunk_id in
    if id == last
    then (some (chunk_file c id), c)
    else if id == last + 1
    then (some (chunk_file c id), with_last (last + 1) c)
    else if ltb id last
    then (some (chunk_file c id), c)
    else (none, c)

abbrev pub open_next : Collection → Collection
open_next c = (get_chunk (c.header.last_chunk_id + 1) c).1

abbrev pub bumped : ℕ → ℕ → MetadataHeader → MetadataHeader
bumped ids docs h = record h { next_id = h.next_id + ids; coll_size = h.coll_size + docs }

-- The first 8 bytes of a chunk hold the next free offset, 0 for a new chunk, whose first is 8.
abbrev pub next_free : ℕ → ℕ
next_free n = if n == 0 then 8 else n

-- What follows a call goes on where the call succeeded, and else keeps its status.
abbrev pub on_success {ℓ} : {A : Type ℓ} → Ret → A → A → A
on_success (returned success) next stop = next
on_success _ next stop = stop

-- The bytes of a document in the last chunk, and the new next offset: the status, the offset of the
-- document, and the collection.
unfoldable pub place_bytes : ℕ → Bytes → Collection → Ret × ℕ × Collection
place_bytes off doc c =
    let last = c.header.last_chunk_id in
    let (r1, file1) = write (chunk_file c last) off doc in
    let (r2, file2) = write file1 0 (to_le 8 (off + length doc)) in
    on_success r1 (r2, off, put_chunk last file2 c) (r1, off, put_chunk last file1 c)

-- What `append` and `update` do for one document at the end of the last chunk, with a new chunk where
-- the document does not fit.
unfoldable pub append_bytes : ℕ → Bytes → Collection → Ret × ℕ × Collection
append_bytes next_offset doc c =
    if ltb (sub_size c.chunk_size next_offset) (length doc)
    then place_bytes 8 doc (open_next c)
    else place_bytes next_offset doc c

abbrev pub placed : ℕ → ℕ → ℕ → EntryMetadata
placed chunk off n = record { chunk = chunk; offset = off; size = n; allocated = n }

-- One round of `append`: the status, the next offset, and the collection.
unfoldable pub append_doc : ℕ → Bytes → Collection → Ret × ℕ × Collection
append_doc next_offset doc c =
    let (r, off, c1) = append_bytes next_offset doc c in
    let (st, c2) =
      write_entry c1.header.next_id (placed c1.header.last_chunk_id off (length doc)) c1 in
    on_success r
      (on_success (returned st)
        (returned success, off + length doc, record c2 { header = bumped 1 1 c2.header })
        (returned st, off, c2))
      (r, off, c1)

abbrev pub push_id : ℕ → Ret × List ℕ × Collection → Ret × List ℕ × Collection
push_id id (r, ids, c) = (r, id ∷ ids, c)

-- The loop of `append`: the status, the ids that are written, and the collection.
unfoldable pub append_loop : Bytes → ℕ → ℕ → List ℕ → Collection → Ret × List ℕ × Collection
append_loop documents pos next_offset [] c = (returned success, [], c)
append_loop documents pos next_offset (n ∷ sizes) c =
    let rest = λ (o : ℕ) (c' : Collection). append_loop documents (pos + n) o sizes c' in
    elim (slice documents pos n) [
      | none ↦ (fault, c.header.next_id ∷ [], c)
      | some doc ↦ push_id c.header.next_id (
          let (r, off, c1) = append_doc next_offset doc c in on_success r (rest off c1) (r, [], c1))
    ]

unfoldable pub any_larger : ℕ → List ℕ → Bool
any_larger max [] = false
any_larger max (n ∷ sizes) = let rest = any_larger max sizes in if ltb max n then true else rest

-- Collection::append
unfoldable pub append : Bytes → List ℕ → Collection → Ret × List ℕ × Collection
append documents sizes c =
    if any_larger c.chunk_size sizes
    then (returned size_error, [], c)
    else elim (read (chunk_file c c.header.last_chunk_id) 0 8) [
      | Read.bytes b ↦ append_loop documents 0 (next_free (of_le b)) sizes c
      | Read.failed st ↦ (returned st, [], c)
      | Read.outside ↦ (fault, [], c)
    ]

-- Collection::erase. The entry keeps the size that is allocated.
unfoldable pub erase : ℕ → Collection → Status × Collection
unfolding read_entry write_entry
erase id c =
    if leb c.header.next_id id
    then (invalid_id, c)
    else (let (st, entry) = read_entry id c in
        let gone = record entry {
          chunk = key_not_found;
          size = key_not_found;
          offset = key_not_found;
        } in
        let (st', c') = write_entry id gone c in
        on_success (returned st)
          (if entry.size == key_not_found
            then (success, c)
            else on_success (returned st')
                (
                  success,
                  record c' {
                    header = record c'.header { coll_size = sub_size c'.header.coll_size 1 };
                  },
                )
                (st', c'))
          (st, c))

-- What a call of `read` or `fetch` of a collection comes to.
pub data Found : Type 0 where
  document : Bytes → Found
  refused : Status → Found
  crashed : Found

abbrev pub found_in : Option Bytes → EntryMetadata → Found
found_in none entry = crashed
found_in (some file) entry = elim (read file entry.offset entry.size) [
  | Read.bytes b ↦ document b
  | Read.failed st ↦ refused st
  | Read.outside ↦ crashed
]

-- Collection::read, with the room of the buffer. Here and in `fetch` the chunk is one that an entry
-- names, never a new one.
unfoldable pub read_doc : ℕ → ℕ → Collection → Found
unfolding read_entry get_chunk read
read_doc id room c =
    if leb c.header.next_id id
    then refused invalid_id
    else (let (st, entry) = read_entry id c in
        on_success (returned st)
          (if entry.size == key_not_found
            then refused not_found
            else if ltb room entry.size
            then refused size_error
            else found_in (get_chunk entry.chunk c).0 entry)
          (refused st))

-- Collection::fetch: what the callback is called with, none for YOKAN_KEY_NOT_FOUND; `refused` where
-- it is not called. The status of the entry is tested for NotFound only, which it never is.
pub data Fetched : Type 0 where
  called : Option Bytes → Fetched
  uncalled : Fetched
  broken : Fetched

abbrev pub fetched : Found → Fetched
fetched (document b) = called (some b)
fetched (refused st) = uncalled
fetched crashed = broken

unfoldable pub fetch_doc : ℕ → Collection → Fetched
unfolding read_entry get_chunk read
fetch_doc id c =
    if leb c.header.next_id id
    then called none
    else (let (st, entry) = read_entry id c in
        if entry.size == key_not_found
        then called none
        else fetched (found_in (get_chunk entry.chunk c).0 entry))

-- Collection::entrySize
unfoldable pub entry_size_of : ℕ → Collection → Status × ℕ
unfolding read_entry
entry_size_of id c =
    if leb c.header.next_id id
    then (not_found, key_not_found)
    else (let (st, entry) = read_entry id c in (st, entry.size))

-- Collection::last_id
abbrev pub last_id : Collection → ℕ
last_id c = sub_size c.header.next_id 1
