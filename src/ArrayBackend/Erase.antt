-- ===== src/ArrayBackend/Erase.antt =====
-- docErase on collections whose vectors hold what they promise.
use mochi_rkv.Prelude.{
  ℕ, ◌+◌, ◌≤◌, ◌<◌, ◌≡◌, refl, ap, ◌∙◌, sym, length-set, Bool-cases, Option-cases, inl, inr, List,
  [], ◌∷◌, length, get_elem?, set, Option, none, some, arith, ◌==◌,
}
use mochi_rkv.Common.{sub_size, Bytes, success, key_not_found, size_mod}
use mochi_rkv.ArrayBackend.{Collection, ArrayDatabase, find, replace}
use mochi_rkv.ArrayBackend.Docs.{erase_loop, doc_erase, gone}
use mochi_rkv.ArrayBackend.Stored.{view, IsStored}
use mochi_rkv.ArrayBackend.Vectors.{docs_of-set, set-outside, Held-set, live-set, live_bound}

-- The documents without those of the ids.
abbrev pub erased : List ℕ → List (Option Bytes) → List (Option Bytes)
erased [] docs = docs
erased (id ∷ ids) docs = erased ids (set docs id none)

size_less_one : (k : ℕ) → 1 ≤ k → k < size_mod → sub_size k 1 + 1 ≡ k
size_less_one k h h' = omega arith

gone-IsStored :
    (c : Collection) (id n : ℕ)
    → IsStored c
    → length c.sizes < size_mod
    → get_elem? c.sizes id ≡ some n
    → IsStored (gone n id c)
gone-IsStored c id n v small there = record {
  held =
      Held-set (length c.bytes) c.sizes c.offsets id key_not_found key_not_found v.held (λ e. cc);
  counted = elim (Bool-cases (n == key_not_found)) [
    | inl absent ↦
        rw absent
          (omega (arith, v.counted, rw absent at (live-set c.sizes id n key_not_found there)))
    | inr here ↦ rw here (
        let e = rw here at (live-set c.sizes id n key_not_found there) in
        let b = live_bound c.sizes in
        omega (
          arith,
          v.counted,
          e,
          size_less_one c.count (omega (arith, v.counted)) (omega (arith, v.counted)),
        ))
  ];
}

erase_loop_lem :
    (ids : List ℕ) (c : Collection)
    → IsStored c
    → length c.sizes < size_mod
    → (view (erase_loop ids c) ≡ erased ids (view c)) × IsStored (erase_loop ids c)
unfolding erase_loop
erase_loop_lem [] c v small = (refl, v)
erase_loop_lem (id ∷ ids) c v small = elim (Option-cases (get_elem? c.sizes id)) [
  | inl outside ↦
      let (e, v') = erase_loop_lem ids c v small in
      rw (outside, erase_loop)
        (e ∙ ap (erased ids) (sym (set-outside c.bytes c.sizes c.offsets id none outside)), v')
  | inr (n, there) ↦
      let (e, v') =
        erase_loop_lem ids (gone n id c) (gone-IsStored c id n v small there)
          (rw (length-set c.sizes id key_not_found) small) in
      rw (there, erase_loop)
        (
          e
              ∙ ap (erased ids)
                  (docs_of-set c.bytes c.sizes c.offsets id key_not_found key_not_found),
          v',
        )
]

-- docErase on a collection that is there: it succeeds, the documents of the ids are gone and the
-- others are as they were, and the count is again that of the documents.
pub doc_erase_refines :
    (name : Bytes) (ids : List ℕ) (db : ArrayDatabase) (c : Collection)
    → find name db.collections ≡ some c
    → IsStored c
    → length c.sizes < size_mod
    → (c' : Collection) × (doc_erase name ids db
        ≡ (success, record db { collections = replace name c' db.collections }))
      × (view c' ≡ erased ids (view c))
      × IsStored c'
unfolding doc_erase
doc_erase_refines name ids db c found v small =
    let (e, v') = erase_loop_lem ids c v small in
    (erase_loop ids c, rw (found, doc_erase) refl, e, v')
