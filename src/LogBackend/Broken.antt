-- ===== src/LogBackend/Broken.antt =====
-- Requests on which the log backend does not do what it means to.
use native.Mathlib.Nat.{mod-eq_of_lt}
use mochi_rkv.Prelude.{
  ℕ, suc, ◌+◌, ◌-◌, ◌≤◌, ◌<◌, ◌≡◌, refl, ap, ◌∙◌, false, [], ◌∷◌, length, none, some, arith, le→ltb,
  lt→ltb, ◌==◌, take,
}
use mochi_rkv.Common.{Bytes, success, size_error, returned, fault, key_not_found, size_mod, slice}
use mochi_rkv.LogBackend.File.{write}
use mochi_rkv.LogBackend.Collection.{
  EntryMetadata, Collection, read_entry, chunk_file, get_chunk, get_or, empty_entry, erase, append,
  append_loop, append_doc, append_bytes, place_bytes, any_larger, with_last, put_chunk,
}
use mochi_rkv.LogBackend.Update.{
  update, create_ids, overwrite_loop, update_in_place, write_over, max_id,
}
use mochi_rkv.LogBackend.Files.{get_or-put_at_self, read_inside}
use mochi_rkv.LogBackend.Placed.{open_next_lem, sub_size_lem}
use mochi_rkv.LogBackend.Reads.{read_entry_old}
use mochi_rkv.LogBackend.Erase.{gone, without, without-IsStored, erase_there}
use mochi_rkv.LogBackend.Stored.{free_offset, IsLaid, IsStored}

get_chunk-none :
    (id : ℕ) (c : Collection) → c.header.last_chunk_id + 1 < id → get_chunk id c ≡ (none, c)
unfolding get_chunk
get_chunk-none id c h = ground arith

zero_sub : (a b : ℕ) → a < b → suc a - b ≡ 0
zero_sub a b h = omega arith

take_all : (b : Bytes) → take (length b) b ≡ b
take_all [] = refl
take_all (x ∷ b) = ap (◌∷◌ x) (take_all b)

slice_all : (b : Bytes) → slice b 0 (length b) ≡ some b
unfolding slice
slice_all b = rw (le→ltb (length b) (0 + length b) (omega arith)) (ap some (take_all b))

create_none : (c : Collection) → create_ids 0 c ≡ (success, c)
unfolding create_ids
create_none c = refl

-- The copy over the bytes of an entry whose document was erased.
write_over-gone :
    (e : EntryMetadata) (x : ℕ) (d : Bytes) (c : Collection)
    → c.header.last_chunk_id + 1 < key_not_found
    → write_over (gone e) (x ∷ d) c ≡ (fault, c)
unfolding write_over
write_over-gone e x d c h = rw (get_chunk-none key_not_found c h, write_over) refl

overwrite_gone :
    (id : ℕ) (e : EntryMetadata) (x : ℕ) (d : Bytes) (c : Collection)
    → c.header.last_chunk_id + 1 < key_not_found
    → read_entry id c ≡ (success, gone e)
    → length (x ∷ d) ≤ e.allocated
    → overwrite_loop (x ∷ d) 0 (id ∷ []) (length (x ∷ d) ∷ []) c ≡ (fault, [], c)
unfolding overwrite_loop update_in_place
overwrite_gone id e x d c h there fits =
    rw (there, overwrite_loop)
      (rw (le→ltb e.allocated (length (x ∷ d)) fits) (
        rw (slice_all (x ∷ d)) (rw (there, update_in_place) (rw (write_over-gone e x d c h) refl))))

module _ (id x : ℕ) (d : Bytes) (c : Collection) (v : IsStored c)
    (small : c.header.next_id < size_mod) where
  -- `update` of a document that was erased, with one that is not empty and fits into the bytes that
  -- its entry keeps: getChunkFromID returns the null pointer for the chunk of the entry, and its
  -- `write` is called.
  pub update_erased_faults :
      id < c.header.next_id
      → (get_or empty_entry c.entries id).size == key_not_found ≡ false
      → length (x ∷ d) ≤ (get_or empty_entry c.entries id).allocated
      → length (x ∷ d) ≤ c.chunk_size
      → c.header.last_chunk_id + 1 < key_not_found
      → (update (id ∷ []) (x ∷ d) (length (x ∷ d) ∷ []) (erase id c).1).0 ≡ fault
  unfolding update max_id any_larger
  update_erased_faults lt there fits chunk last =
      let e = get_or empty_entry c.entries id in
      let c' = without id c v small e in
      let v' = without-IsStored id c v small e lt there in
      rw (erase_there id c v small lt there) (
        rw (le→ltb c.chunk_size (length (x ∷ d)) chunk) (
          rw (zero_sub id c.header.next_id lt, create_none c')
            (rw
              (overwrite_gone id e x d c' last
                (read_entry_old (free_offset c') c' v' id lt
                  ∙ ap (λ y. (success, y)) (get_or-put_at_self empty_entry c.entries id (gone e)))
                fits)
              refl)))

write_outside :
    (file : Bytes) (off : ℕ) (b : Bytes)
    → length file < off + length b
    → off + length b < size_mod
    → write file off b ≡ (returned size_error, file)
unfolding write
write_outside file off b h s =
    rw (mod-eq_of_lt {n = off + length b} {m = size_mod} s)
      (rw (lt→ltb (length file) (off + length b) h) refl)

place_too_large :
    (off : ℕ) (doc : Bytes) (c : Collection)
    → IsLaid off c
    → c.chunk_size < 8 + length doc
    → length doc ≤ c.chunk_size
    → c.chunk_size + 8 < size_mod
    → append_bytes off doc c ≡ (
      returned size_error,
      8,
      put_chunk
          (c.header.last_chunk_id + 1)
          (chunk_file c (c.header.last_chunk_id + 1))
          (with_last (c.header.last_chunk_id + 1) c),
    )
unfolding append_bytes place_bytes
place_too_large off doc c v large fits below =
    rw (sub_size_lem c.chunk_size off v.in_chunk (omega (arith, v.small)), append_bytes)
      (rw (lt→ltb (c.chunk_size - off) (length doc) (omega (arith, v.from_eight))) (
        rw (open_next_lem c) (
          rw
            (write_outside (chunk_file c (c.header.last_chunk_id + 1)) 8 doc
              (omega (arith, v.sized (c.header.last_chunk_id + 1))) (omega (arith, v.small)))
            refl)))

-- `append` of a document that passes the check against the size of a chunk, but does not fit beside
-- the first 8 bytes, with chunks shorter than 2 ^ 64 - 8 bytes: the status is SizeError, no id is used, and one more chunk is begun.
pub append_too_large :
    (doc : Bytes) (c : Collection)
    → IsStored c
    → c.chunk_size < 8 + length doc
    → length doc ≤ c.chunk_size
    → c.chunk_size + 8 < size_mod
    → (c' : Collection) × (append doc (length doc ∷ []) c
        ≡ (returned size_error, c.header.next_id ∷ [], c'))
      × (c'.header.next_id ≡ c.header.next_id)
      × (c'.header.last_chunk_id ≡ c.header.last_chunk_id + 1)
unfolding append append_loop append_doc any_larger
append_too_large doc c v large fits below =
    let last = c.header.last_chunk_id in
    let refused = place_too_large (free_offset c) doc c v large fits below in
    (
      put_chunk (last + 1) (chunk_file c (last + 1)) (with_last (last + 1) c),
      rw (le→ltb c.chunk_size (length doc) fits) (
          rw
            (read_inside (chunk_file c last) 0 (omega (arith, v.sized last, v.small)) 8
              (omega (arith, v.sized last, v.from_eight, v.in_chunk)))
            (rw (slice_all doc, append_loop) (rw (refused, append_doc) refl))),
      refl,
      refl,
    )
