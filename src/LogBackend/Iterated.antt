-- ===== src/LogBackend/Iterated.antt =====
-- The loop of docIter: where it ends, and where it does not.
use mochi_rkv.Prelude.{
  ℕ, zero, suc, ◌-◌, ◌≤◌, ◌<◌, ◌≡◌, refl, ap, ◌∙◌, true, false, ◌&&◌, Option, none, some, arith,
  ltb, leb, lt→ltb, leb→lt, Bool-cases, Option-cases, inl, inr, ◌==◌,
}
use mochi_rkv.Common.{Bytes, Status, success, Ret, returned, key_not_found, size_mod, add_size}
use mochi_rkv.Filters.{DocFilter, Copied}
use mochi_rkv.LogBackend.Collection.{
  Collection, fetch_doc, called, last_id, get_or, empty_entry, chunk_file, fetched,
}
use mochi_rkv.LogBackend.Database.{LogDatabase, find}
use mochi_rkv.LogBackend.Files.{block, read_inside}
use mochi_rkv.LogBackend.Listing.{iter_loop, doc_iter}
use mochi_rkv.LogBackend.Reads.{read_entry_old, Holds-get_or, get_chunk_old, found_in_lem}
use mochi_rkv.LogBackend.Stored.{free_offset, IsStored}

leb_lem : (a b : ℕ) → a ≤ b → leb a b ≡ true
leb_lem a b h = ground arith

leb_not : (a b : ℕ) → b < a → leb a b ≡ false
leb_not a b h = ground arith

last_id_none : (c : Collection) → c.header.next_id ≡ 0 → last_id c ≡ key_not_found
last_id_none c h = omega arith

last_id_some :
    (c : Collection)
    → 0 < c.header.next_id
    → c.header.next_id < size_mod
    → last_id c ≡ c.header.next_id - 1
last_id_some c h h' = omega arith

module _ {ℓ} {S : Type ℓ} (name : Bytes) (filter : DocFilter) (func : ℕ → Copied → S → Status × S)
    (c : Collection) where
  fetch_outside : (id : ℕ) → c.header.next_id ≤ id → fetch_doc id c ≡ called none
  unfolding fetch_doc
  fetch_outside id h = rw (leb_lem c.header.next_id id h) refl

  spins :
      (fuel left id : ℕ) (s : S)
      → c.header.next_id ≡ 0
      → 0 < left
      → id < size_mod
      → iter_loop name filter func fuel c left id s ≡ none
  unfolding iter_loop
  spins zero left id s e l h = refl
  spins (suc fuel) left id s e l h =
      rw (lt→ltb 0 left l, iter_loop)
        (rw (last_id_none c e, iter_loop)
          (rw (leb_lem id key_not_found (omega arith), iter_loop)
            (rw (fetch_outside id (omega arith), iter_loop)
              (spins fuel left (add_size id 1) s e l (omega arith)))))

-- docIter over a collection without ids, from any id and for any number of documents but 0, does not
-- return, whatever the fuel.
pub doc_iter_spins {ℓ} :
    {S : Type ℓ} (name : Bytes) (filter : DocFilter) (func : ℕ → Copied → S → Status × S)
    (fuel max from_id : ℕ) (db : LogDatabase) (c : Collection) (s : S)
    → find name db.collections ≡ some c
    → c.header.next_id ≡ 0
    → 0 < max
    → from_id < size_mod
    → doc_iter name filter func fuel max from_id db s ≡ none
unfolding doc_iter
doc_iter_spins name filter func fuel max from_id db c s found e m h =
    rw (found, doc_iter) (spins name filter func c fuel max from_id s e m h)

on_status {ℓ} :
    {S : Type ℓ} (st : Status) (x : Option (Ret × S)) (s : S)
    → (r : Ret × S) × (x ≡ some r)
    → (r : Ret × S) × ((elim st [ success ↦ x | st' ↦ some (returned st', s) ]) ≡ some r)
on_status success x s h = h
on_status st x s h = ((returned st, s), refl)

module _ (c : Collection) (v : IsStored c) where
  -- `fetch` calls its callback for every id.
  fetch_calls : (id : ℕ) → (doc : Option Bytes) × (fetch_doc id c ≡ called doc)
  unfolding fetch_doc
  fetch_calls id = elim (Bool-cases (leb c.header.next_id id)) [
    | inl outside ↦ (none, rw outside refl)
    | inr inside ↦
        let lt : id < c.header.next_id = leb→lt c.header.next_id id inside in
        let e = get_or empty_entry c.entries id in
        let holds =
          Holds-get_or c.chunk_size c.header.last_chunk_id (free_offset c) c.entries id v.held
            (omega (arith, v.entered)) in
        elim (Bool-cases (e.size == key_not_found)) [
          | inl gone ↦
              (none, rw inside (rw (read_entry_old (free_offset c) c v id lt) (rw gone refl)))
          | inr there ↦
              let (h8, end, at, at_last) = holds there in
              (
                some (block (chunk_file c e.chunk) e.offset e.size),
                rw inside (
                    rw (read_entry_old (free_offset c) c v id lt) (
                      rw there (
                        rw (get_chunk_old e.chunk c at) (
                          ap fetched (
                            found_in_lem (chunk_file c e.chunk) e
                              (block (chunk_file c e.chunk) e.offset e.size)
                              (read_inside (chunk_file c e.chunk) e.offset
                                (omega (arith, v.sized e.chunk, v.small)) e.size
                                (omega (arith, v.sized e.chunk)))))))),
              )
        ]
  ]

module _ {ℓ} {S : Type ℓ} (name : Bytes) (filter : DocFilter) (func : ℕ → Copied → S → Status × S)
    (c : Collection) (v : IsStored c) (some_id : 0 < c.header.next_id)
    (small : c.header.next_id < size_mod) where
  iter_stop :
      (fuel id : ℕ) (s : S)
      → 0 < fuel
      → iter_loop name filter func fuel c 0 id s ≡ some (returned success, s)
  unfolding iter_loop
  iter_stop zero id s h = absurd (omega arith)
  iter_stop (suc fuel) id s h = refl

  iter_ends :
      (fuel left id : ℕ) (s : S)
      → c.header.next_id - id < fuel
      → (r : Ret × S) × (iter_loop name filter func fuel c left id s ≡ some r)
  unfolding iter_loop
  iter_ends zero left id s f = absurd (omega arith)
  iter_ends (suc fuel) left id s f = elim (Bool-cases (ltb 0 left && leb id (last_id c))) [
    | inr done ↦ ((returned success, s), rw done refl)
    | inl more ↦
        let lt : id < c.header.next_id = ground (arith, last_id_some c some_id small) in
        let (doc, called_with) = fetch_calls c v id in
        elim (Option-cases doc) [
          | inl absent ↦
              let (r, e) = iter_ends fuel left (add_size id 1) s (omega arith) in
              (r, rw more (rw (called_with ∙ ap called absent, iter_loop) e))
          | inr (d, there) ↦ elim (Bool-cases (filter.check name id d)) [
            | inr fails ↦ elim (Bool-cases (filter.should_stop name d)) [
              | inl stops ↦ (
                (returned success, s),
                rw more (
                    rw (called_with ∙ ap called there, iter_loop)
                      (rw fails (rw stops (iter_stop fuel id s (omega arith))))),
              )
              | inr goes ↦
                  let (r, e) = iter_ends fuel left (add_size id 1) s (omega arith) in
                  (
                    r,
                    rw more (rw (called_with ∙ ap called there, iter_loop) (rw fails (rw goes e))),
                  )
            ]
            | inl passes ↦
                let out = func id (filter.doc_copy name (filter.doc_size_from name d) d) s in
                let (r, e) =
                  on_status out.0
                    (iter_loop name filter func fuel c (left - 1) (add_size id 1) out.1) out.1
                    (iter_ends fuel (left - 1) (add_size id 1) out.1 (omega arith)) in
                (r, rw more (rw (called_with ∙ ap called there, iter_loop) (rw passes e)))
          ]
        ]
  ]

-- docIter over a collection with ids, whose files hold what its metadata promise, returns: the fuel of
-- one round more than the ids from the first one on is enough, for fewer than 2 ^ 64 ids.
pub doc_iter_returns {ℓ} :
    {S : Type ℓ} (name : Bytes) (filter : DocFilter) (func : ℕ → Copied → S → Status × S)
    (fuel max from_id : ℕ) (db : LogDatabase) (c : Collection) (s : S)
    → find name db.collections ≡ some c
    → IsStored c
    → 0 < c.header.next_id
    → c.header.next_id < size_mod
    → c.header.next_id - from_id < fuel
    → (r : Ret × S) × (doc_iter name filter func fuel max from_id db s ≡ some r)
unfolding doc_iter
doc_iter_returns name filter func fuel max from_id db c s found v some_id small f =
    let (r, e) = iter_ends name filter func c v some_id small fuel max from_id s f in
    (r, rw (found, doc_iter) e)
