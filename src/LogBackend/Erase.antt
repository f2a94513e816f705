-- ===== src/LogBackend/Erase.antt =====
-- Collection::erase and docErase, in a collection whose files hold what its metadata promise.
use mochi_rkv.Prelude.{
  ℕ, zero, suc, ◌+◌, ◌≤◌, ◌<◌, ◌≡◌, refl, ap, sym, ◌∙◌, true, false, List, [], ◌∷◌, length, set,
  none, some, arith, leb, le→ltb, leb→le, leb→lt, Bool-cases, inl, inr, ◌==◌,
}
use mochi_rkv.Common.{sub_size, Bytes, success, key_not_found, size_mod}
use mochi_rkv.ArrayBackend.Erase.{erased}
use mochi_rkv.LogBackend.Collection.{
  EntryMetadata, Collection, chunk_file, write_entry, erase, get_or, put_at, empty_entry, entry_end,
}
use mochi_rkv.LogBackend.Database.{LogDatabase, find, stored, erase_loop, doc_erase}
use mochi_rkv.LogBackend.Reads.{read_entry_old}
use mochi_rkv.LogBackend.Stored.{doc_in, docs_in, view, AllHold, live, free_offset, IsStored}

abbrev pub gone : EntryMetadata → EntryMetadata
gone entry = record entry { chunk = key_not_found; size = key_not_found; offset = key_not_found }

docs_in-put_gone :
    (files : ℕ → Bytes) (es : List EntryMetadata) (id : ℕ) (e : EntryMetadata)
    → id < length es
    → docs_in files (put_at empty_entry es id (gone e)) ≡ set (docs_in files es) id none
docs_in-put_gone files [] id e h = absurd (omega arith)
docs_in-put_gone files (x ∷ es) zero e h = refl
docs_in-put_gone files (x ∷ es) (suc id) e h =
    ap (◌∷◌ (doc_in files x)) (docs_in-put_gone files es id e (omega arith))

AllHold-put_gone :
    (cs last off : ℕ) (es : List EntryMetadata) (id : ℕ) (e : EntryMetadata)
    → id < length es
    → AllHold cs last off es
    → AllHold cs last off (put_at empty_entry es id (gone e))
AllHold-put_gone cs last off [] id e h v = absurd (omega arith)
AllHold-put_gone cs last off (x ∷ es) zero e h v = ((λ there. cc), v.1)
AllHold-put_gone cs last off (x ∷ es) (suc id) e h v =
    (v.0, AllHold-put_gone cs last off es id e (omega arith) v.1)

length-put_at :
    (es : List EntryMetadata) (id : ℕ) (e : EntryMetadata)
    → id < length es
    → length (put_at empty_entry es id e) ≡ length es
length-put_at [] id e h = absurd (omega arith)
length-put_at (x ∷ es) zero e h = refl
length-put_at (x ∷ es) (suc id) e h = ap suc (length-put_at es id e (omega arith))

-- An entry with a document is one less to count.
live-put_gone :
    (es : List EntryMetadata) (id : ℕ) (e : EntryMetadata)
    → id < length es
    → (get_or empty_entry es id).size == key_not_found ≡ false
    → live (put_at empty_entry es id (gone e)) + 1 ≡ live es
live-put_gone [] id e h there = absurd (omega arith)
live-put_gone (x ∷ es) zero e h there = rw there (omega arith)
live-put_gone (x ∷ es) (suc id) e h there = omega (arith, live-put_gone es id e (omega arith) there)

live_bound : (es : List EntryMetadata) → live es ≤ length es
live_bound [] = omega arith
live_bound (x ∷ es) = ground (arith, live_bound es)

-- An id without a document, or none at all.
set-none :
    (files : ℕ → Bytes) (es : List EntryMetadata) (id : ℕ)
    → (id < length es → (get_or empty_entry es id).size == key_not_found ≡ true)
    → set (docs_in files es) id none ≡ docs_in files es
set-none files [] id h = refl
set-none files (x ∷ es) zero h = rw (h (omega arith)) refl
set-none files (x ∷ es) (suc id) h =
    ap (◌∷◌ (doc_in files x)) (set-none files es id λ lt. h (omega arith))

leb_not : (a b : ℕ) → b < a → leb a b ≡ false
leb_not a b h = ground arith

less_one : (k n : ℕ) → n + 1 ≡ k → k < size_mod → sub_size k 1 ≡ n
less_one k n e h = omega arith

module _ (id : ℕ) (c : Collection) (v : IsStored c) (small : c.header.next_id < size_mod) where
  abbrev pub without : EntryMetadata → Collection
  without entry = record c {
    entries = put_at empty_entry c.entries id (gone entry);
    header = record c.header { coll_size = sub_size c.header.coll_size 1 };
  }

  write_gone :
      (e : EntryMetadata)
      → id < c.header.next_id
      → write_entry id (gone e) c
        ≡ (success, record c { entries = put_at empty_entry c.entries id (gone e) })
  unfolding write_entry
  write_gone e h =
      let fits = le→ltb c.meta_size (entry_end id) (omega (arith, v.mapped)) in
      rw fits (rw fits refl)

  pub without-IsStored :
      (e : EntryMetadata)
      → id < c.header.next_id
      → (get_or empty_entry c.entries id).size == key_not_found ≡ false
      → IsStored (without e)
  without-IsStored e h there =
      let lt : id < length c.entries = omega (arith, v.entered) in
      record {
        small = v.small;
        sized = v.sized;
        from_eight = v.from_eight;
        in_chunk = v.in_chunk;
        entered = length-put_at c.entries id (gone e) lt ∙ v.entered;
        mapped = v.mapped;
        with_entry = v.with_entry;
        held =
            AllHold-put_gone c.chunk_size c.header.last_chunk_id (free_offset c) c.entries id e lt
              v.held;
        counted =
            less_one c.header.coll_size (live (put_at empty_entry c.entries id (gone e)))
              (live-put_gone c.entries id e lt there ∙ sym v.counted)
              (omega (arith, v.counted, live_bound c.entries, v.entered));
      }

  -- `erase` of a document that is there.
  pub erase_there :
      id < c.header.next_id
      → (get_or empty_entry c.entries id).size == key_not_found ≡ false
      → erase id c ≡ (success, without (get_or empty_entry c.entries id))
  unfolding erase
  erase_there lt there =
      rw (leb_not c.header.next_id id lt, erase)
        (rw (read_entry_old (free_offset c) c v id lt)
          (rw there (rw (write_gone (get_or empty_entry c.entries id) lt) refl)))

  -- `erase` of one id, there or not.
  pub erase_lem :
      (view (erase id c).1 ≡ set (view c) id none)
      × IsStored (erase id c).1
      × ((erase id c).1.header.next_id ≡ c.header.next_id)
  unfolding erase
  erase_lem = elim (Bool-cases (leb c.header.next_id id)) [
    | inl outside ↦
        let le = leb→le c.header.next_id id outside in
        rw outside (
          sym (set-none (chunk_file c) c.entries id λ lt. absurd (omega (arith, v.entered))),
          v,
          refl,
        )
    | inr inside ↦
        let lt : id < c.header.next_id = leb→lt c.header.next_id id inside in
        let e = get_or empty_entry c.entries id in
        rw inside (
          rw (read_entry_old (free_offset c) c v id lt)
            (elim (Bool-cases (e.size == key_not_found)) [
              | inl absent ↦
                  rw absent (sym (set-none (chunk_file c) c.entries id λ l. absent), v, refl)
              | inr there ↦ rw there (
                  rw (write_gone e lt) (
                    docs_in-put_gone (chunk_file c) c.entries id e (omega (arith, v.entered)),
                    without-IsStored e lt there,
                    refl,
                  ))
            ]))
  ]

erase_loop_lem :
    (ids : List ℕ) (c : Collection)
    → IsStored c
    → c.header.next_id < size_mod
    → (view (erase_loop ids c) ≡ erased ids (view c)) × IsStored (erase_loop ids c)
unfolding erase_loop
erase_loop_lem [] c v small = (refl, v)
erase_loop_lem (id ∷ ids) c v small =
    let (w, v', n) = erase_lem id c v small in
    let (w', v'') = erase_loop_lem ids (erase id c).1 v' (omega arith) in
    (w' ∙ ap (erased ids) w, v'')

-- docErase on a collection whose files hold what its metadata promise: it succeeds, the documents of
-- the ids are gone and the others are as they were, ids that are not there are ignored, and the count
-- is again that of the documents, for fewer than 2 ^ 64 ids.
pub erased_refines :
    (name : Bytes) (ids : List ℕ) (db : LogDatabase) (c : Collection)
    → find name db.collections ≡ some c
    → IsStored c
    → c.header.next_id < size_mod
    → (c' : Collection) × (doc_erase name ids db ≡ (success, stored name db c'))
      × (view c' ≡ erased ids (view c))
      × IsStored c'
unfolding doc_erase
erased_refines name ids db c found v small =
    let (w, v') = erase_loop_lem ids c v small in
    (erase_loop ids c, rw (found, doc_erase) refl, w, v')
