-- ===== src/LogBackend/Append.antt =====
-- Collection::append: the documents go behind those that are there, under new ids.
use mathlib.Core.Path.{subst}
use mathlib.Core.List.{append_assoc, append-nil}
use mochi_rkv.Prelude.{
  ℕ, ◌+◌, ◌≤◌, ◌≡◌, refl, ap, sym, ◌∙◌, false, List, [], ◌∷◌, ◌++◌, length, some, arith, le→ltb,
  ◌==◌, length-append, map, take, drop,
}
use mochi_rkv.Common.{Bytes, success, returned, key_not_found}
use mochi_rkv.ArrayBackend.Store.{ids_from}
use mochi_rkv.MapBackend.Request.{concat, sizes_of, slice_item, later_part}
use mochi_rkv.LogBackend.Collection.{
  Collection, chunk_file, with_last, append_doc, append_loop, append, any_larger, placed, entry_end,
  bumped,
}
use mochi_rkv.LogBackend.Database.{LogDatabase, find, stored, doc_store}
use mochi_rkv.LogBackend.Files.{read_inside}
use mochi_rkv.LogBackend.Stored.{view, live, free_offset, IsLaid, IsStored}
use mochi_rkv.LogBackend.Chunks.{
  written, free_offset-written, chunk-written_self, doc-filled, sized-written, docs-written,
}
use mochi_rkv.LogBackend.Placed.{
  AllHold-grown, AllHold-append, docs_in-append, live-append, append_bytes_lem, write_entry_next,
  not_sentinel,
}

-- The collection with one more document.
abbrev added : ℕ → ℕ → Bytes → Collection → Collection
added off m doc c = record (written off doc c) {
  meta_size = m;
  entries = c.entries ++ placed c.header.last_chunk_id off (length doc) ∷ [];
  header = bumped 1 1 c.header;
}

module _ (off m : ℕ) (doc : Bytes) (c : Collection) (v : IsLaid off c)
    (h : off + length doc ≤ c.chunk_size) where
  doc_fits : length doc == key_not_found ≡ false
  doc_fits = not_sentinel (length doc) (omega (arith, v.small))

  view-added : view (added off m doc c) ≡ view c ++ some doc ∷ []
  view-added =
      docs_in-append (chunk_file (written off doc c)) c.entries
        (placed c.header.last_chunk_id off (length doc) ∷ [])
      ∙ rw (docs-written off doc c v h c.entries v.held) (
          rw doc_fits (
            ap (λ f. view c ++ some (take (length doc) (drop off f)) ∷ [])
              (chunk-written_self off doc c v h)
            ∙ ap (λ b. view c ++ some b ∷ []) (doc-filled off doc c v h)))

  added-IsLaid : entry_end c.header.next_id ≤ m → IsLaid (off + length doc) (added off m doc c)
  added-IsLaid fits = record {
    small = v.small;
    sized = sized-written off doc c v h;
    from_eight = omega (arith, v.from_eight);
    in_chunk = h;
    entered =
        length-append c.entries (placed c.header.last_chunk_id off (length doc) ∷ [])
        ∙ omega (arith, v.entered);
    mapped = omega arith;
    with_entry = omega arith;
    held =
        AllHold-append c.chunk_size c.header.last_chunk_id (off + length doc) c.entries
          (placed c.header.last_chunk_id off (length doc) ∷ [])
          (AllHold-grown c.chunk_size c.header.last_chunk_id off (off + length doc) c.entries
            (omega arith) v.held)
          ((λ there. (v.from_eight, h, omega arith, λ eq. omega arith)), tt);
    counted = omega (
      arith,
      v.counted,
      live-append c.entries (placed c.header.last_chunk_id off (length doc) ∷ []),
      live_one,
    );
  }
    where
      live_one : live (placed c.header.last_chunk_id off (length doc) ∷ []) ≡ 1
      live_one = rw doc_fits refl

-- One document of `append`.
abbrev Added : Bytes → Collection → ℕ → Collection → Type 0
Added doc c off c' =
    IsLaid off c'
    × (free_offset c' ≡ off)
    × (view c' ≡ view c ++ some doc ∷ [])
    × (c'.header.next_id ≡ c.header.next_id + 1)
    × (c'.chunk_size ≡ c.chunk_size)

append_doc_lem :
    (off : ℕ) (doc : Bytes) (c : Collection)
    → IsLaid off c
    → 8 + length doc ≤ c.chunk_size
    → (off' : ℕ) × (c' : Collection) × (append_doc off doc c ≡ (returned success, off', c'))
      × Added doc c off' c'
unfolding append_doc
append_doc_lem off doc c v h =
    let (off', last, e, v', fit) = append_bytes_lem off doc c v h in
    let cl = with_last last c in
    let (m, e', fits) =
      write_entry_next (placed last off' (length doc)) (written off' doc cl) v'.entered v'.mapped
        v'.with_entry in
    (
      off' + length doc,
      added off' m doc cl,
      rw (e, append_doc) (rw e' refl),
      (
        added-IsLaid off' m doc cl v' fit fits,
        free_offset-written off' doc cl v' fit,
        view-added off' m doc cl v' fit,
        refl,
        refl,
      ),
    )

-- Each document fits into a chunk beside the cell of 8 bytes.
abbrev pub AllFit : ℕ → List Bytes → Type 0
AllFit chunk_size [] = Unit
AllFit chunk_size (d ∷ docs) = (8 + length d ≤ chunk_size) × AllFit chunk_size docs

append_loop_lem :
    (buf before : Bytes) (docs : List Bytes) (off : ℕ) (c : Collection)
    → buf ≡ before ++ concat docs
    → IsLaid off c
    → free_offset c ≡ off
    → AllFit c.chunk_size docs
    → (c' : Collection) × (append_loop buf (length before) off (sizes_of docs) c
        ≡ (returned success, ids_from c.header.next_id docs, c'))
      × IsStored c'
      × (view c' ≡ view c ++ map some docs)
unfolding append_loop
append_loop_lem buf before [] off c e v f fits =
    (c, refl, subst (λ o. IsLaid o c) (sym f) v, sym (append-nil (view c)))
append_loop_lem buf before (d ∷ docs) off c e v f fits =
    let (off1, c1, e1, added_doc) = append_doc_lem off d c v fits.0 in
    let (v1, f1, w1, n1, k1) = added_doc in
    let (c', e', v', w') =
      append_loop_lem buf (before ++ d) docs off1 c1 (later_part buf before d (concat docs) e) v1 f1
        (subst (λ k. AllFit k docs) (sym k1) fits.1) in
    (
      c',
      rw (slice_item buf before d (concat docs) e, append_loop)
          (rw e1 (rw (← length-append before d) (rw e' (rw n1 refl)))),
      v',
      w' ∙ ap (λ l. l ++ map some docs) w1 ∙ append_assoc (view c) (some d ∷ []) (map some docs),
    )

any_larger-fits :
    (cs : ℕ) (docs : List Bytes) → AllFit cs docs → any_larger cs (sizes_of docs) ≡ false
unfolding any_larger
any_larger-fits cs [] h = refl
any_larger-fits cs (d ∷ docs) h =
    rw (le→ltb cs (length d) (omega arith)) (any_larger-fits cs docs h.1)

-- The same of `append`.
append_refines :
    (docs : List Bytes) (c : Collection)
    → IsStored c
    → AllFit c.chunk_size docs
    → (c' : Collection) × (append (concat docs) (sizes_of docs) c
        ≡ (returned success, ids_from c.header.next_id docs, c'))
      × IsStored c'
      × (view c' ≡ view c ++ map some docs)
unfolding append
append_refines docs c v fits =
    let (c', e, v', w) = append_loop_lem (concat docs) [] docs (free_offset c) c refl v refl fits in
    (
      c',
      rw (any_larger-fits c.chunk_size docs fits) (
          rw
            (read_inside (chunk_file c c.header.last_chunk_id) 0
              (omega (arith, v.sized c.header.last_chunk_id, v.small)) 8
              (omega (arith, v.sized c.header.last_chunk_id, v.from_eight, v.in_chunk)))
            e),
      v',
      w,
    )

-- docStore to a collection whose files hold what its metadata promise, of documents that fit into a
-- chunk beside its first 8 bytes: it succeeds with the next ids in turn, the documents are behind
-- those that were there, and the files again hold what the metadata promise.
pub doc_store_refines :
    (name : Bytes) (docs : List Bytes) (db : LogDatabase) (c : Collection)
    → find name db.collections ≡ some c
    → IsStored c
    → AllFit c.chunk_size docs
    → (c' : Collection) × (doc_store name (concat docs) (sizes_of docs) db
        ≡ (returned success, ids_from c.header.next_id docs, stored name db c'))
      × (view c' ≡ view c ++ map some docs)
      × IsStored c'
unfolding doc_store
doc_store_refines name docs db c found v fits =
    let (c', e, v', w) = append_refines docs c v fits in
    (c', rw (found, doc_store) (rw e refl), w, v')
