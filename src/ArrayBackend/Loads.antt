-- ===== src/ArrayBackend/Loads.antt =====
-- docLoad and docFetch on collections whose vectors hold what they promise.
use mochi_rkv.Prelude.{
  ℕ, ◌+◌, ◌-◌, ◌≤◌, ◌≡◌, refl, ap, Bool-cases, Option-cases, inl, inr, true, List, [], ◌∷◌, length,
  get_elem?, Option, none, some, arith, ltb, le→ltb, ltb→le,
}
use mochi_rkv.Common.{Bytes, success, returned, key_not_found}
use mochi_rkv.MapBackend.Read.{Slot, only}
use mochi_rkv.MapBackend.Listed.{Inside}
use mochi_rkv.ArrayBackend.{Collection, ArrayDatabase, find, record_at}
use mochi_rkv.ArrayBackend.Docs.{
  load_packed, all_small, doc_load, fetch_loop, doc_fetch, whole, push_slot, push_doc, map_ids,
}
use mochi_rkv.ArrayBackend.Stored.{view, joined, IsStored, record_at-view}

-- What the clients see under an id.
abbrev pub lookup : List (Option Bytes) → ℕ → Option Bytes
lookup docs id = joined (get_elem? docs id)

abbrev pub answers : List (Option Bytes) → List ℕ → List (Option Bytes)
answers docs ids = map_ids (lookup docs) ids

-- The documents one behind the other, from an offset.
abbrev pub laid : ℕ → List (Option Bytes) → List Slot
laid at [] = []
laid at (none ∷ docs) = only key_not_found at ∷ laid at docs
laid at (some doc ∷ docs) = whole at doc ∷ laid (at + length doc) docs

abbrev pub needed : List (Option Bytes) → ℕ
needed [] = 0
needed (none ∷ docs) = needed docs
needed (some doc ∷ docs) = length doc + needed docs

load_packed_lem :
    (c : Collection) (at room : ℕ) (ids : List ℕ)
    → IsStored c
    → needed (answers (view c) ids) ≤ room
    → load_packed c at room ids ≡ (returned success, laid at (answers (view c) ids))
unfolding load_packed
load_packed_lem c at room [] v h = refl
load_packed_lem c at room (id ∷ ids) v h = elim (Option-cases (lookup (view c) id)) [
  | inl absent ↦
      rw (record_at-view c id v, load_packed)
        (rw absent (
          ap (push_slot (only key_not_found at))
            (load_packed_lem c at room ids v (rw absent at h))))
  | inr (doc, there) ↦
      let h' = rw there at h in
      rw (record_at-view c id v, load_packed)
        (rw there (
          rw (le→ltb room (length doc) (omega arith)) (
            ap (push_slot (whole at doc))
              (load_packed_lem c (at + length doc) (room - length doc) ids v (omega arith)))))
]

all_small-Inside :
    (buf_size at : ℕ) (ids : List ℕ) → at ≤ buf_size → Inside buf_size (all_small at ids)
all_small-Inside buf_size at [] h = tt
all_small-Inside buf_size at (id ∷ ids) h = (omega arith, all_small-Inside buf_size at ids h)

-- A packed load from a collection that is there, with room for the documents: it succeeds with the
-- documents of the ids one behind the other, and KeyNotFound for those that are not there.
pub load_answers :
    (name : Bytes) (ids : List ℕ) (room : ℕ) (sizes : List ℕ) (db : ArrayDatabase) (c : Collection)
    → find name db.collections ≡ some c
    → IsStored c
    → needed (answers (view c) ids) ≤ room
    → doc_load name true ids room sizes db ≡ (returned success, laid 0 (answers (view c) ids))
unfolding doc_load
load_answers name ids room sizes db c found v h =
    rw (found, doc_load) (load_packed_lem c 0 room ids v h)

abbrev pub fetched : List (Option Bytes) → List ℕ → List (ℕ × Option Bytes)
fetched docs ids = map_ids (λ id. (id, lookup docs id)) ids

fetch_loop_lem :
    (c : Collection) (ids : List ℕ)
    → IsStored c
    → fetch_loop c ids ≡ (returned success, fetched (view c) ids)
unfolding fetch_loop
fetch_loop_lem c [] v = refl
fetch_loop_lem c (id ∷ ids) v =
    rw (record_at-view c id v, fetch_loop)
      (ap (push_doc (id, lookup (view c) id)) (fetch_loop_lem c ids v))

-- docFetch from a collection that is there: it succeeds, and hands each id with what clients see
-- under it to the callback, in the order of the request.
pub doc_fetch_answers :
    (name : Bytes) (ids : List ℕ) (db : ArrayDatabase) (c : Collection)
    → find name db.collections ≡ some c
    → IsStored c
    → doc_fetch name ids db ≡ (returned success, fetched (view c) ids)
unfolding doc_fetch
doc_fetch_answers name ids db c found v = rw (found, doc_fetch) (fetch_loop_lem c ids v)

-- A packed load copies to places inside of the buffer only.
load_packed-Inside :
    (c : Collection) (buf_size at room : ℕ) (ids : List ℕ)
    → at + room ≤ buf_size
    → Inside buf_size (load_packed c at room ids).1
unfolding load_packed
load_packed-Inside c buf_size at room [] h = tt
load_packed-Inside c buf_size at room (id ∷ ids) h = elim (Option-cases (record_at c id)) [
  | inl outside ↦ rw (outside, load_packed) tt
  | inr (none, e) ↦ rw (e, load_packed) (omega arith, load_packed-Inside c buf_size at room ids h)
  | inr (some doc, e) ↦
      rw (e, load_packed)
        (elim (Bool-cases (ltb room (length doc))) [
          | inl small ↦ rw small (all_small-Inside buf_size at (id ∷ ids) (omega arith))
          | inr room_left ↦
              let fit = ltb→le room (length doc) room_left in
              rw room_left (
                omega arith,
                load_packed-Inside c buf_size (at + length doc) (room - length doc) ids
                    (omega arith),
              )
        ])
]
