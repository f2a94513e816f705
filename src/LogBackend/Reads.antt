-- ===== src/LogBackend/Reads.antt =====
-- Collection::read and the packed docLoad, in a collection whose files hold what its metadata
-- promise.
use mathlib.Core.Path.{subst}
use mochi_rkv.Prelude.{
  ℕ, zero, suc, ◌+◌, ◌-◌, ◌≤◌, ◌<◌, ◌≡◌, refl, ap, true, List, [], ◌∷◌, length, drop, Option, none,
  some, arith, ltb, leb, le→ltb, leb→le, leb→lt, Bool-cases, Option-cases, inl, inr, ◌==◌, ◌⊎◌,
  if◌then◌else◌, length-take, length-drop,
}
use mochi_rkv.Common.{
  Bytes, success, size_error, invalid_id, not_found, returned, key_not_found, size_too_small,
}
use mochi_rkv.MapBackend.Read.{Slot, only}
use mochi_rkv.ArrayBackend.Docs.{push_slot, all_small, whole}
use mochi_rkv.ArrayBackend.Loads.{lookup, answers}
use mochi_rkv.LogBackend.File.{Read, read}
use mochi_rkv.LogBackend.Collection.{
  EntryMetadata, Collection, chunk_file, get_chunk, found_in, read_entry, read_doc, document,
  refused, get_or, empty_entry, entry_end,
}
use mochi_rkv.LogBackend.Database.{LogDatabase, find, load_packed, doc_load}
use mochi_rkv.LogBackend.Files.{block, read_inside}
use mochi_rkv.LogBackend.Stored.{
  doc_in, docs_in, view, Holds, AllHold, free_offset, IsLaid, IsStored,
}

pub lookup-docs_in :
    (files : ℕ → Bytes) (es : List EntryMetadata) (id : ℕ)
    → id < length es
    → lookup (docs_in files es) id ≡ doc_in files (get_or empty_entry es id)
lookup-docs_in files [] id h = absurd (omega arith)
lookup-docs_in files (e ∷ es) zero h = refl
lookup-docs_in files (e ∷ es) (suc id) h = lookup-docs_in files es id (omega arith)

pub lookup_outside :
    (files : ℕ → Bytes) (es : List EntryMetadata) (id : ℕ)
    → length es ≤ id
    → lookup (docs_in files es) id ≡ none
lookup_outside files [] id h = refl
lookup_outside files (e ∷ es) zero h = absurd (omega arith)
lookup_outside files (e ∷ es) (suc id) h = lookup_outside files es id (omega arith)

pub Holds-get_or :
    (cs last off : ℕ) (es : List EntryMetadata) (id : ℕ)
    → AllHold cs last off es
    → id < length es
    → Holds cs last off (get_or empty_entry es id)
Holds-get_or cs last off [] id h lt = absurd (omega arith)
Holds-get_or cs last off (e ∷ es) zero h lt = h.0
Holds-get_or cs last off (e ∷ es) (suc id) h lt = Holds-get_or cs last off es id h.1 (omega arith)

pub get_chunk_old :
    (id : ℕ) (c : Collection)
    → id ≤ c.header.last_chunk_id
    → get_chunk id c ≡ (some (chunk_file c id), c)
unfolding get_chunk
get_chunk_old id c h = ground arith

pub found_in_lem :
    (file : Bytes) (e : EntryMetadata) (b : Bytes)
    → read file e.offset e.size ≡ Read.bytes b
    → found_in (some file) e ≡ document b
found_in_lem file e b h = rw (h, found_in) refl

module _ (off : ℕ) (c : Collection) (v : IsLaid off c) where
  pub read_entry_old :
      (id : ℕ)
      → id < c.header.next_id
      → read_entry id c ≡ (success, get_or empty_entry c.entries id)
  unfolding read_entry
  read_entry_old id h = rw (le→ltb c.meta_size (entry_end id) (omega (arith, v.mapped))) refl

  length-block :
      (chunk o n : ℕ) → o + n ≤ c.chunk_size → length (block (chunk_file c chunk) o n) ≡ n
  length-block chunk o n h = omega (
    arith,
    length-take n (drop o (chunk_file c chunk)),
    length-drop o (chunk_file c chunk),
    v.sized chunk,
  )

  -- What `read` says of an id, by the document that the clients see.
  abbrev pub Reading : ℕ → ℕ → Option Bytes → Type 0
  Reading id room none =
      (read_doc id room c ≡ refused invalid_id) ⊎ (read_doc id room c ≡ refused not_found)
  Reading id room (some doc) =
      read_doc id room c ≡ (if ltb room (length doc) then refused size_error else document doc)

  pub read_doc_lem : (id room : ℕ) → Reading id room (lookup (view c) id)
  unfolding read_doc
  read_doc_lem id room = elim (Bool-cases (leb c.header.next_id id)) [
    | inl outside ↦
        rw
          (lookup_outside (chunk_file c) c.entries id
            (omega (arith, v.entered, leb→le c.header.next_id id outside)))
          (inl (rw outside refl))
    | inr inside ↦
        let lt : id < c.header.next_id = leb→lt c.header.next_id id inside in
        let lt' : id < length c.entries = omega (arith, v.entered) in
        let holds = Holds-get_or c.chunk_size c.header.last_chunk_id off c.entries id v.held lt' in
        let e = get_or empty_entry c.entries id in
        rw (lookup-docs_in (chunk_file c) c.entries id lt')
          (elim (Bool-cases (e.size == key_not_found)) [
            | inl gone ↦ rw gone (inr (rw inside (rw (read_entry_old id lt) (rw gone refl))))
            | inr there ↦
                let (h8, end, at, at_last) = holds there in
                rw there (
                  rw inside (
                    rw (read_entry_old id lt) (
                      rw there (
                        rw (length-block e.chunk e.offset e.size end) (
                          rw (get_chunk_old e.chunk c at) (
                            rw
                              (found_in_lem (chunk_file c e.chunk) e
                                (block (chunk_file c e.chunk) e.offset e.size)
                                (read_inside (chunk_file c e.chunk) e.offset
                                  (omega (arith, v.sized e.chunk, v.small)) e.size
                                  (omega (arith, v.sized e.chunk))))
                              refl))))))
          ])
  ]

-- The documents one behind the other, from an offset, up to the first that has no room.
abbrev pub smalls : ℕ → List (Option Bytes) → List Slot
smalls at [] = []
smalls at (d ∷ docs) = only size_too_small at ∷ smalls at docs

abbrev pub packed : ℕ → ℕ → List (Option Bytes) → List Slot
packed at room [] = []
packed at room (none ∷ docs) = only key_not_found at ∷ packed at room docs
packed at room (some doc ∷ docs) =
    let rest = packed (at + length doc) (room - length doc) docs in
    if ltb room (length doc) then smalls at (some doc ∷ docs) else whole at doc ∷ rest

all_small_lem :
    (at : ℕ) (docs : List (Option Bytes)) (ids : List ℕ)
    → all_small at ids ≡ smalls at (answers docs ids)
all_small_lem at docs [] = refl
all_small_lem at docs (id ∷ ids) = ap (◌∷◌ (only size_too_small at)) (all_small_lem at docs ids)

load_packed_lem :
    (off : ℕ) (c : Collection) (v : IsLaid off c) (at room : ℕ) (ids : List ℕ)
    → load_packed c at room ids ≡ (returned success, packed at room (answers (view c) ids))
unfolding load_packed
load_packed_lem off c v at room [] = refl
load_packed_lem off c v at room (id ∷ ids) = elim (Option-cases (lookup (view c) id)) [
  | inl absent ↦
      let later = ap (push_slot (only key_not_found at)) (load_packed_lem off c v at room ids) in
      rw absent (elim (subst (Reading off c v id room) absent (read_doc_lem off c v id room)) [
        | inl e ↦ rw (e, load_packed) later
        | inr e ↦ rw (e, load_packed) later
      ])
  | inr (doc, there) ↦
      let e = subst (Reading off c v id room) there (read_doc_lem off c v id room) in
      rw there (elim (Bool-cases (ltb room (length doc))) [
        | inl small ↦ rw small (
            rw (rw small at e, load_packed)
              (ap (λ l. (returned success, only size_too_small at ∷ l))
                (all_small_lem at (view c) ids)))
        | inr fits ↦ rw fits (
            rw (rw fits at e, load_packed)
              (ap (push_slot (whole at doc))
                (load_packed_lem off c v (at + length doc) (room - length doc) ids)))
      ])
]

-- A packed docLoad from a collection whose files hold what its metadata promise, whatever the room:
-- it succeeds with the documents of the ids one behind the other and KeyNotFound for those that are
-- not there, up to the first document without room, from which on each size is SIZE_TOO_SMALL.
pub load_until_full :
    (name : Bytes) (ids : List ℕ) (room : ℕ) (sizes : List ℕ) (db : LogDatabase) (c : Collection)
    → find name db.collections ≡ some c
    → IsStored c
    → doc_load name true ids room sizes db
      ≡ (returned success, packed 0 room (answers (view c) ids))
unfolding doc_load
load_until_full name ids room sizes db c found v =
    rw (found, doc_load) (load_packed_lem (free_offset c) c v 0 room ids)
