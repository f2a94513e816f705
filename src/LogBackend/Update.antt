-- ===== src/LogBackend/Update.antt =====
-- LogDatabase::Collection::update of src/backends/log.cpp.
use mochi_rkv.Prelude.{
  ℕ, zero, suc, ◌+◌, ◌-◌, Bool, List, [], ◌∷◌, length, none, some, ltb, leb, ◌==◌, if◌then◌else◌,
}
use mochi_rkv.Common.{
  Bytes, Status, success, size_error, Ret, returned, fault, slice, key_not_found,
}
use mochi_rkv.Bytes.Codec.{of_le}
use mochi_rkv.LogBackend.File.{Read, write, read}
use mochi_rkv.LogBackend.Collection.{
  EntryMetadata, Collection, read_entry, write_entry, get_chunk, put_chunk, chunk_file, on_success,
  append_bytes, placed, bumped, any_larger, next_free,
}

abbrev pub max : ℕ → ℕ → ℕ
max a b = if ltb a b then b else a

unfoldable pub max_id : ℕ → List ℕ → ℕ
max_id m [] = m
max_id m (id ∷ ids) = max_id (max m id) ids

abbrev pub erased_in : ℕ → EntryMetadata
erased_in chunk = record {
  chunk = chunk;
  offset = key_not_found;
  size = key_not_found;
  allocated = 0;
}

-- for(id = next_id; id <= max_id; ++id): entries as of documents that were erased.
unfoldable pub create_ids : ℕ → Collection → Status × Collection
unfolding write_entry
create_ids zero c = (success, c)
create_ids (suc n) c =
    let rest = create_ids n in
    let (st, c1) = write_entry c.header.next_id (erased_in c.header.last_chunk_id) c in
    on_success (returned st) (rest (record c1 { header = bumped 1 0 c1.header })) (st, c1)

abbrev counted : Bool → Collection → Collection
counted more c = if more then record c { header = bumped 0 1 c.header } else c

-- The copy over the bytes that an entry has, where the document is not empty: `none` is the pointer
-- to a chunk that getChunkFromID does not return.
unfoldable pub write_over : EntryMetadata → Bytes → Collection → Ret × Collection
unfolding get_chunk write
write_over entry [] c = (returned success, c)
write_over entry (x ∷ doc) c = elim (get_chunk entry.chunk c).0 [
  | none ↦ (fault, c)
  | some file ↦
      let c1 = (get_chunk entry.chunk c).1 in
      let (r, file') = write file entry.offset (x ∷ doc) in (r, put_chunk entry.chunk file' c1)
]

-- One round of the first loop for a document that fits into the bytes of its entry.
unfoldable pub update_in_place : ℕ → EntryMetadata → Bytes → Collection → Ret × Collection
update_in_place id entry doc c =
    let (r, c1) = write_over entry doc c in
    let was_erased = entry.size == key_not_found in
    let (st, c2) =
      if entry.size == length doc
      then (success, c1)
      else write_entry id (record entry { size = length doc }) c1 in
    on_success r
      (on_success (returned st) (returned success, counted was_erased c2) (returned st, c2)) (r, c1)

abbrev pub push_entry :
    EntryMetadata → Ret × List EntryMetadata × Collection → Ret × List EntryMetadata × Collection
push_entry e (r, es, c) = (r, e ∷ es, c)

-- The first loop, with the entries that it reads. The document is read only where it is copied.
unfoldable pub overwrite_loop :
    Bytes → ℕ → List ℕ → List ℕ → Collection → Ret × List EntryMetadata × Collection
overwrite_loop documents pos (id ∷ ids) (n ∷ sizes) c =
    let rest = λ (c' : Collection). overwrite_loop documents (pos + n) ids sizes c' in
    let (st, entry) = read_entry id c in
    on_success (returned st)
      (if ltb entry.allocated n then push_entry entry (rest c) else elim (slice documents pos n) [
        | none ↦ (fault, [], c)
        | some doc ↦
            let (r, c1) = update_in_place id entry doc c in
            on_success r (push_entry (record entry { size = n }) (rest c1)) (r, [], c1)
      ])
      (returned st, [], c)
overwrite_loop documents pos _ _ c = (returned success, [], c)

-- One round of the second loop: it goes on, or the call ends.
pub data Round : Type 0 where
  goes : ℕ → Collection → Round
  ends : Ret → Collection → Round

-- A write that fails leaves the loop by `break`, and the status is then that of the flush of the
-- entries, which are those that the call has read: OK.
abbrev pub flushed : Ret → Ret
flushed (returned st) = returned success
flushed r = r

-- The round for a document that does not fit into its entry. A failure of the metadata ends the call.
unfoldable pub append_again : ℕ → ℕ → EntryMetadata → Bytes → Collection → Round
append_again next_offset id entry doc c =
    let (r, off, c1) = append_bytes next_offset doc c in
    let (st, c2) = write_entry id (placed c1.header.last_chunk_id off (length doc)) c1 in
    on_success r
      (on_success (returned st) (goes (off + length doc) (counted (entry.size == key_not_found) c2))
        (ends (returned st) c2))
      (ends (flushed r) c1)

unfoldable pub append_loop_again :
    Bytes → ℕ → ℕ → List ℕ → List ℕ → List EntryMetadata → Collection → Ret × Collection
append_loop_again documents pos next_offset (id ∷ ids) (n ∷ sizes) (entry ∷ entries) c =
    let rest =
      λ (o : ℕ) (c' : Collection). append_loop_again documents (pos + n) o ids sizes entries c' in
    if leb n entry.allocated then rest next_offset c else elim (slice documents pos n) [
      | none ↦ (fault, c)
      | some doc ↦ elim (append_again next_offset id entry doc c) [
        | goes off c' ↦ rest off c'
        | ends r c' ↦ (r, c')
      ]
    ]
append_loop_again documents pos next_offset _ _ _ c = (returned success, c)

abbrev second_loop :
    Bytes → List ℕ → List ℕ → Ret × List EntryMetadata × Collection → Ret × Collection
second_loop documents ids sizes (r, entries, c) =
    on_success r
      (elim (read (chunk_file c c.header.last_chunk_id) 0 8) [
        | Read.bytes b ↦ append_loop_again documents 0 (next_free (of_le b)) ids sizes entries c
        | Read.failed st ↦ (returned st, c)
        | Read.outside ↦ (fault, c)
      ])
      (r, c)

-- Collection::update. An empty list of ids is read outside of its end.
unfoldable pub update : List ℕ → Bytes → List ℕ → Collection → Ret × Collection
update [] documents sizes c =
    if any_larger c.chunk_size sizes then (returned size_error, c) else (fault, c)
update (id ∷ ids) documents sizes c =
    if any_larger c.chunk_size sizes
    then (returned size_error, c)
    else (let (st, c1) = create_ids (suc (max_id id ids) - c.header.next_id) c in
        on_success (returned st)
          (second_loop documents (id ∷ ids) sizes (overwrite_loop documents 0 (id ∷ ids) sizes c1))
          (returned st, c1))
