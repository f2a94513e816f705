-- ===== src/ArrayBackend/Store.antt =====
-- docStore: the documents go behind those that are there, under new ids.
use mathlib.Core.List.{append_assoc, append-nil}
use native.Mathlib.Numerals.{unary_clauses}
use mochi_rkv.Prelude.{
  ℕ, zero, suc, ◌+◌, ◌≤◌, ◌<◌, ◌≡◌, refl, ◌∙◌, false, List, [], ◌∷◌, ◌++◌, length, drop, replicate,
  some, arith, le→ltb, length-append, length-replicate, take-length-append, drop-length-append, map,
  ◌==◌,
}
use mochi_rkv.Common.{Bytes, success, returned, key_not_found}
use mochi_rkv.MapBackend.Request.{concat, sizes_of, slice_item, later_part}
use mochi_rkv.ArrayBackend.{Collection, ArrayDatabase, find, replace}
use mochi_rkv.ArrayBackend.Docs.{copy_to, store_loop, doc_store}
use mochi_rkv.ArrayBackend.Stored.{Held, Held-grown, live, docs_of, docs_of-grown, view, IsStored}

-- The ids that the documents get, and their offsets.
abbrev pub ids_from : ℕ → List Bytes → List ℕ
ids_from id [] = []
ids_from id (d ∷ docs) = id ∷ ids_from (id + 1) docs

abbrev pub offsets_from : ℕ → List Bytes → List ℕ
offsets_from off [] = []
offsets_from off (d ∷ docs) = off ∷ offsets_from (off + length d) docs

-- The collection behind the call.
abbrev pub with_docs : List Bytes → Collection → Collection
with_docs docs c = record {
  bytes = c.bytes ++ concat docs;
  count = c.count + length docs;
  offsets = c.offsets ++ offsets_from (length c.bytes) docs;
  sizes = c.sizes ++ sizes_of docs;
}

pub zero_add : (m : ℕ) → 0 + m ≡ m
zero_add m = omega arith

suc_add : (n m : ℕ) → suc n + m ≡ suc (n + m)
suc_add n m = omega arith

drop_past : (a b : Bytes) (m : ℕ) → drop (length a + m) (a ++ b) ≡ drop m b
drop_past [] b m = rw (zero_add m)
drop_past (x ∷ a) b m = rw (suc_add (length a) m) (drop_past a b m)

drop-replicate : (n m v : ℕ) → drop n (replicate (n + m) v) ≡ replicate m v
drop-replicate zero m v = rw (zero_add m)
drop-replicate (suc n) m v = rw (suc_add n m) (drop-replicate n m v)

add_suc : (k n : ℕ) → k + 1 + n ≡ k + suc n
add_suc k n = omega arith

-- A copy to the front of the room that is left.
pub copy_to_room :
    (a d : Bytes) (m : ℕ)
    → copy_to (a ++ replicate (length d + m) 0) (length a) d ≡ some ((a ++ d) ++ replicate m 0)
unfolding copy_to
copy_to_room a d m =
    rw
      (le→ltb (length (a ++ replicate (length d + m) 0)) (length a + length d) (
        omega (
          arith,
          length-append a (replicate (length d + m) 0),
          length-replicate {A = ℕ} (length d + m) 0,
        )))
      (rw (
        take-length-append a (replicate (length d + m) 0),
        drop_past a (replicate (length d + m) 0) (length d),
        drop-replicate (length d) m 0,
        append_assoc a d (replicate m 0),
      ))

store_loop_lem :
    (buf before : Bytes) (docs : List Bytes) (held : Bytes) (id k : ℕ) (os ns : List ℕ)
    → buf ≡ before ++ concat docs
    → store_loop buf (length before) (length held) id (sizes_of docs) (record {
      bytes = held ++ replicate (length (concat docs)) 0;
      count = k;
      offsets = os;
      sizes = ns;
    })
      ≡ (
        returned success,
        ids_from id docs,
        record {
          bytes = held ++ concat docs;
          count = k + length docs;
          offsets = os ++ offsets_from (length held) docs;
          sizes = ns ++ sizes_of docs;
        },
      )
unfolding store_loop
store_loop_lem buf before [] held id k os ns e = simp (append-nil, unary_clauses)
store_loop_lem buf before (d ∷ docs) held id k os ns e =
    rw (slice_item buf before d (concat docs) e, store_loop)
      (rw (length-append d (concat docs), copy_to_room held d (length (concat docs)))
        (rw (← length-append before d, ← length-append held d)
          (rw
            (store_loop_lem buf (before ++ d) docs (held ++ d) (id + 1) (k + 1)
              (os ++ length held ∷ []) (ns ++ length d ∷ [])
              (later_part buf before d (concat docs) e))
            (simp (append_assoc, length-append, add_suc)))))

pub docs_of-append :
    (vec : Bytes) (ns os ns' os' : List ℕ)
    → Held (length vec) ns os
    → docs_of vec (ns ++ ns') (os ++ os') ≡ docs_of vec ns os ++ docs_of vec ns' os'
docs_of-append vec [] [] ns' os' h = refl
docs_of-append vec [] (o ∷ os) ns' os' h = cc
docs_of-append vec (n ∷ ns) [] ns' os' h = cc
docs_of-append vec (n ∷ ns) (o ∷ os) ns' os' h = rw (docs_of-append vec ns os ns' os' h.1)

pub live-append : (ns ms : List ℕ) → live (ns ++ ms) ≡ live ns + live ms
live-append [] ms = rw (zero_add (live ms))
live-append (n ∷ ns) ms = omega (arith, live-append ns ms)

pub Held-append :
    (len : ℕ) (ns os ns' os' : List ℕ)
    → Held len ns os
    → Held len ns' os'
    → Held len (ns ++ ns') (os ++ os')
Held-append len [] [] ns' os' h h' = h'
Held-append len [] (o ∷ os) ns' os' h h' = cc
Held-append len (n ∷ ns) [] ns' os' h h' = cc
Held-append len (n ∷ ns) (o ∷ os) ns' os' h h' = (h.0, Held-append len ns os ns' os' h.1 h')

pub below_sentinel :
    (d : Bytes) (docs : List Bytes)
    → length (concat (d ∷ docs)) < key_not_found
    → (length d == key_not_found ≡ false) × (length (concat docs) < key_not_found)
below_sentinel d docs h =
    let len = length-append d (concat docs) in (ground (arith, len), omega (arith, len))

-- What was stored lies where its offset says.
docs_of-stored :
    (vec a : Bytes) (docs : List Bytes)
    → vec ≡ a ++ concat docs
    → length (concat docs) < key_not_found
    → docs_of vec (sizes_of docs) (offsets_from (length a) docs) ≡ map some docs
docs_of-stored vec a [] e h = refl
docs_of-stored vec a (d ∷ docs) e h = rw ((below_sentinel d docs h).0) (
    rw
      (
        ← length-append a d,
        docs_of-stored vec (a ++ d) docs (later_part vec a d (concat docs) e)
            (below_sentinel d docs h).1,
      )
      (rw (e, drop-length-append a (d ++ concat docs), take-length-append d (concat docs))))

Held-stored :
    (len off : ℕ) (docs : List Bytes)
    → off + length (concat docs) ≤ len
    → Held len (sizes_of docs) (offsets_from off docs)
Held-stored len off [] h = tt
Held-stored len off (d ∷ docs) h = (
  λ e. omega (arith, length-append d (concat docs)),
  Held-stored len (off + length d) docs (omega (arith, length-append d (concat docs))),
)

live-sizes_of :
    (docs : List Bytes) → length (concat docs) < key_not_found → live (sizes_of docs) ≡ length docs
live-sizes_of [] h = refl
live-sizes_of (d ∷ docs) h =
    rw ((below_sentinel d docs h).0) (omega (arith, live-sizes_of docs (below_sentinel d docs h).1))

-- docStore succeeds, appends the documents under the next ids and keeps the collection sound.
module _ (docs : List Bytes) (c : Collection) (v : IsStored c) where
  with_docs-IsStored : length (concat docs) < key_not_found → IsStored (with_docs docs c)
  with_docs-IsStored h = record {
    held = rw (length-append c.bytes (concat docs)) (
        Held-append (length c.bytes + length (concat docs)) c.sizes c.offsets (sizes_of docs)
          (offsets_from (length c.bytes) docs)
          (Held-grown (length c.bytes) (length (concat docs)) c.sizes c.offsets v.held)
          (Held-stored (length c.bytes + length (concat docs)) (length c.bytes) docs
            (omega arith)));
    counted =
        rw (live-append c.sizes (sizes_of docs), live-sizes_of docs h) (omega (arith, v.counted));
  }

  view-with_docs :
      length (concat docs) < key_not_found → view (with_docs docs c) ≡ view c ++ map some docs
  view-with_docs h =
      docs_of-append (c.bytes ++ concat docs) c.sizes c.offsets (sizes_of docs)
        (offsets_from (length c.bytes) docs)
        (rw (length-append c.bytes (concat docs))
          (Held-grown (length c.bytes) (length (concat docs)) c.sizes c.offsets v.held))
      ∙ rw (
        docs_of-grown c.bytes (concat docs) c.sizes c.offsets v.held,
        docs_of-stored (c.bytes ++ concat docs) c.bytes docs refl h,
      )

-- docStore to a collection that is there: it succeeds with the next ids in turn, the documents are
-- behind those that were there, and the vectors of the collection still hold what they promise, if
-- the documents are shorter than 2 ^ 64 - 1 bytes in all.
pub store_appends :
    (name : Bytes) (docs : List Bytes) (db : ArrayDatabase) (c : Collection)
    → find name db.collections ≡ some c
    → IsStored c
    → length (concat docs) < key_not_found
    → (c' : Collection) × (doc_store name (concat docs) (sizes_of docs) db ≡ (
      returned success,
      ids_from (length c.sizes) docs,
      record db { collections = replace name c' db.collections },
    ))
      × (view c' ≡ view c ++ map some docs)
      × IsStored c'
unfolding doc_store
store_appends name docs db c found v h = (
  with_docs docs c,
  rw (found, doc_store)
      (rw
        (store_loop_lem (concat docs) [] docs c.bytes (length c.sizes) c.count c.offsets c.sizes
          refl)
        refl),
  view-with_docs docs c v h,
  with_docs-IsStored docs c v h,
)
