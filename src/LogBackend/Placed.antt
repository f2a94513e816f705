-- ===== src/LogBackend/Placed.antt =====
-- Where Collection::append puts a document, and the entry that it writes for it.
use mathlib.Core.Path.{subst}
use mochi_rkv.Prelude.{
  ℕ, ◌+◌, ◌*◌, ◌-◌, ◌≤◌, ◌<◌, ◌≡◌, refl, ap, false, List, [], ◌∷◌, ◌++◌, length, arith, ltb, lt→ltb,
  le→ltb, ltb→le, Bool-cases, inl, inr, ◌==◌,
}
use mochi_rkv.Common.{sub_size, Bytes, success, returned, key_not_found, size_mod}
use mochi_rkv.LogBackend.File.{extend}
use mochi_rkv.LogBackend.Collection.{
  EntryMetadata, Collection, get_chunk, open_next, with_last, append_bytes, place_bytes,
  write_entry, entry_size, entry_end, put_at, empty_entry,
}
use mochi_rkv.LogBackend.Files.{put_at_end}
use mochi_rkv.LogBackend.Stored.{doc_in, docs_in, AllHold, live, IsLaid}
use mochi_rkv.LogBackend.Chunks.{written, write_doc, write_cell}

-- The chunk behind the last: no document is in it.
AllHold-next :
    (cs last off : ℕ) (es : List EntryMetadata)
    → AllHold cs last off es
    → AllHold cs (last + 1) 8 es
AllHold-next cs last off [] h = tt
AllHold-next cs last off (e ∷ es) h = (
  λ there.
      let (h8, end, le, at_last) = h.0 there in (h8, end, omega arith, λ eq. absurd (omega arith)),
  AllHold-next cs last off es h.1,
)

pub AllHold-grown :
    (cs last off off' : ℕ) (es : List EntryMetadata)
    → off ≤ off'
    → AllHold cs last off es
    → AllHold cs last off' es
AllHold-grown cs last off off' [] le h = tt
AllHold-grown cs last off off' (e ∷ es) le h = (
  λ there. let (h8, end, at, at_last) = h.0 there in (h8, end, at, λ eq. omega (arith, at_last eq)),
  AllHold-grown cs last off off' es le h.1,
)

pub AllHold-append :
    (cs last off : ℕ) (es es' : List EntryMetadata)
    → AllHold cs last off es
    → AllHold cs last off es'
    → AllHold cs last off (es ++ es')
AllHold-append cs last off [] es' h h' = h'
AllHold-append cs last off (e ∷ es) es' h h' = (h.0, AllHold-append cs last off es es' h.1 h')

pub docs_in-append :
    (files : ℕ → Bytes) (es es' : List EntryMetadata)
    → docs_in files (es ++ es') ≡ docs_in files es ++ docs_in files es'
docs_in-append files [] es' = refl
docs_in-append files (e ∷ es) es' = ap (◌∷◌ (doc_in files e)) (docs_in-append files es es')

pub live-append : (es es' : List EntryMetadata) → live (es ++ es') ≡ live es + live es'
live-append [] es' = omega arith
live-append (e ∷ es) es' = omega (arith, live-append es es')

open_next-IsLaid :
    (off : ℕ) (c : Collection)
    → IsLaid off c
    → 8 ≤ c.chunk_size
    → IsLaid 8 (with_last (c.header.last_chunk_id + 1) c)
open_next-IsLaid off c v h = record {
  small = v.small;
  sized = v.sized;
  from_eight = omega arith;
  in_chunk = h;
  entered = v.entered;
  mapped = v.mapped;
  with_entry = v.with_entry;
  held = AllHold-next c.chunk_size c.header.last_chunk_id off c.entries v.held;
  counted = v.counted;
}

pub open_next_lem : (c : Collection) → open_next c ≡ with_last (c.header.last_chunk_id + 1) c
unfolding get_chunk
open_next_lem c = ground arith

pub sub_size_lem : (a b : ℕ) → b ≤ a → a < size_mod → sub_size a b ≡ a - b
sub_size_lem a b h s = omega arith

place_bytes_lem :
    (off : ℕ) (doc : Bytes) (c : Collection)
    → IsLaid off c
    → off + length doc ≤ c.chunk_size
    → place_bytes off doc c ≡ (returned success, off, written off doc c)
unfolding place_bytes
place_bytes_lem off doc c v h = rw (write_doc off doc c v h) (rw (write_cell off doc c v h) refl)

-- Where the document goes: behind the last one, or to a new chunk.
pub append_bytes_lem :
    (off : ℕ) (doc : Bytes) (c : Collection)
    → IsLaid off c
    → 8 + length doc ≤ c.chunk_size
    → (off' : ℕ) × (last : ℕ) × (append_bytes off doc c
        ≡ (returned success, off', written off' doc (with_last last c)))
      × IsLaid off' (with_last last c)
      × (off' + length doc ≤ c.chunk_size)
unfolding append_bytes
append_bytes_lem off doc c v h = elim (Bool-cases (ltb (c.chunk_size - off) (length doc))) [
  | inl full ↦
      let v' = open_next-IsLaid off c v (omega arith) in
      (
        8,
        c.header.last_chunk_id + 1,
        rw (sub_size_lem c.chunk_size off v.in_chunk (omega (arith, v.small)), append_bytes)
            (rw full (
              rw (open_next_lem c)
                (place_bytes_lem 8 doc (with_last (c.header.last_chunk_id + 1) c) v' h))),
        v',
        h,
      )
  | inr room ↦
      let fit : off + length doc ≤ c.chunk_size =
        omega (arith, ltb→le (c.chunk_size - off) (length doc) room, v.in_chunk) in
      (
        off,
        c.header.last_chunk_id,
        rw (sub_size_lem c.chunk_size off v.in_chunk (omega (arith, v.small)), append_bytes)
            (rw room (place_bytes_lem off doc c v fit)),
        v,
        fit,
      )
]

entries_next :
    (entry : EntryMetadata) (c : Collection)
    → length c.entries ≡ c.header.next_id
    → put_at empty_entry c.entries c.header.next_id entry ≡ c.entries ++ entry ∷ []
entries_next entry c e =
    subst (λ n. put_at empty_entry c.entries n entry ≡ c.entries ++ entry ∷ []) e
      (put_at_end empty_entry c.entries entry)

-- The metadata file has room for the next entry, or is made larger.
pub write_entry_next :
    (entry : EntryMetadata) (c : Collection)
    → length c.entries ≡ c.header.next_id
    → entry_size + c.header.next_id * entry_size ≤ c.meta_size
    → 2 * entry_size ≤ c.meta_size
    → (m : ℕ) × (write_entry c.header.next_id entry c
        ≡ (success, record c { meta_size = m; entries = c.entries ++ entry ∷ [] }))
      × (entry_end c.header.next_id ≤ m)
unfolding write_entry extend
write_entry_next entry c e h h' = elim (Bool-cases (ltb c.meta_size (entry_end c.header.next_id))) [
  | inl short ↦ (
    2 * c.meta_size,
    rw short (
        rw (lt→ltb c.meta_size (2 * c.meta_size) (omega arith)) (
          rw (le→ltb (2 * c.meta_size) (entry_end c.header.next_id) (omega arith))
            (rw (entries_next entry c e) refl))),
    omega arith,
  )
  | inr fits ↦ (
    c.meta_size,
    rw fits (rw fits (rw (entries_next entry c e) refl)),
    ltb→le c.meta_size (entry_end c.header.next_id) fits,
  )
]

pub not_sentinel : (n : ℕ) → n < key_not_found → n == key_not_found ≡ false
not_sentinel n h = ground arith
