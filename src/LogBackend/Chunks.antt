-- ===== src/LogBackend/Chunks.antt =====
-- One document at the end of the last chunk, and the entry that names it.
use mathlib.Core.Path.{subst}
use mochi_rkv.Prelude.{
  ℕ, ◌+◌, ◌≤◌, ◌≡◌, refl, ap, sym, ◌∙◌, false, List, [], ◌∷◌, length, some, arith, Bool-cases, inl,
  inr, ◌==◌, ==_iff, replicate,
}
use mochi_rkv.Common.{Bytes, success, returned, key_not_found}
use mochi_rkv.Bytes.Codec.{to_le, of_le, length-to_le, of_le-to_le}
use mochi_rkv.LogBackend.File.{overwrite, write}
use mochi_rkv.LogBackend.Collection.{EntryMetadata, Collection, chunk_file, put_chunk, next_free}
use mochi_rkv.LogBackend.Files.{
  block, length-overwrite, block-overwrite, block-overwrite_before, block-overwrite_behind,
  write_inside, get_or-put_at_self, get_or-put_at_ne,
}
use mochi_rkv.LogBackend.Stored.{doc_in, docs_in, Holds, AllHold, free_offset, IsLaid}

-- The last chunk with the document at an offset.
abbrev pub filled : ℕ → Bytes → Collection → Bytes
filled off doc c =
    overwrite (overwrite (chunk_file c c.header.last_chunk_id) off doc) 0
      (to_le 8 (off + length doc))

abbrev pub written : ℕ → Bytes → Collection → Collection
written off doc c = put_chunk c.header.last_chunk_id (filled off doc c) c

next_free_pos : (x : ℕ) → 8 ≤ x → next_free x ≡ x
next_free_pos x h = ground arith

ne_of : (a b : ℕ) → (a == b) ≡ false → a ≡ b → ⊥
ne_of a b h e = ground arith

module _ (off : ℕ) (doc : Bytes) (c : Collection) (v : IsLaid off c)
    (h : off + length doc ≤ c.chunk_size) where
  pub write_doc :
      write (chunk_file c c.header.last_chunk_id) off doc
      ≡ (returned success, overwrite (chunk_file c c.header.last_chunk_id) off doc)
  write_doc =
      write_inside (chunk_file c c.header.last_chunk_id) off
        (omega (arith, v.sized c.header.last_chunk_id, v.small)) doc
        (omega (arith, v.sized c.header.last_chunk_id))

  pub length_doc : length (overwrite (chunk_file c c.header.last_chunk_id) off doc) ≡ c.chunk_size
  length_doc =
      length-overwrite (chunk_file c c.header.last_chunk_id) off doc
      ∙ v.sized c.header.last_chunk_id

  pub write_cell :
      write (overwrite (chunk_file c c.header.last_chunk_id) off doc) 0 (to_le 8 (off + length doc))
      ≡ (returned success, filled off doc c)
  write_cell =
      write_inside (overwrite (chunk_file c c.header.last_chunk_id) off doc) 0
        (omega (arith, length_doc, v.small)) (to_le 8 (off + length doc))
        (omega (arith, length_doc, length-to_le 8 (off + length doc), v.from_eight, v.in_chunk))

  pub length-filled : length (filled off doc c) ≡ c.chunk_size
  length-filled =
      length-overwrite (overwrite (chunk_file c c.header.last_chunk_id) off doc) 0
        (to_le 8 (off + length doc))
      ∙ length_doc

  cell-filled : block (filled off doc c) 0 8 ≡ to_le 8 (off + length doc)
  cell-filled =
      subst (λ n. block (filled off doc c) 0 n ≡ to_le 8 (off + length doc))
        (length-to_le 8 (off + length doc))
        (block-overwrite (overwrite (chunk_file c c.header.last_chunk_id) off doc) 0
          (to_le 8 (off + length doc))
          (omega (arith, length_doc, length-to_le 8 (off + length doc), v.from_eight, v.in_chunk)))

  -- The cell of the next free offset.
  pub free_offset-written : free_offset (written off doc c) ≡ off + length doc
  free_offset-written =
      ap (λ f. next_free (of_le (block f 0 8)))
        (get_or-put_at_self (replicate c.chunk_size 0) c.chunks c.header.last_chunk_id
          (filled off doc c))
      ∙ ap (λ b. next_free (of_le b)) cell-filled
      ∙ ap next_free (of_le-to_le (off + length doc) (omega (arith, v.small)))
      ∙ next_free_pos (off + length doc) (omega (arith, v.from_eight))

  -- Other places of the file.
  block-filled :
      (o n : ℕ)
      → 8 ≤ o
      → o + n ≤ off
      → block (filled off doc c) o n ≡ block (chunk_file c c.header.last_chunk_id) o n
  block-filled o n h8 ho =
      block-overwrite_behind (overwrite (chunk_file c c.header.last_chunk_id) off doc) 0
        (to_le 8 (off + length doc)) o n (omega (arith, length-to_le 8 (off + length doc)))
      ∙ block-overwrite_before (chunk_file c c.header.last_chunk_id) off doc o n ho

  pub doc-filled : block (filled off doc c) off (length doc) ≡ doc
  doc-filled =
      block-overwrite_behind (overwrite (chunk_file c c.header.last_chunk_id) off doc) 0
        (to_le 8 (off + length doc)) off (length doc)
        (omega (arith, length-to_le 8 (off + length doc), v.from_eight))
      ∙ block-overwrite (chunk_file c c.header.last_chunk_id) off doc
          (omega (arith, v.sized c.header.last_chunk_id))

  pub chunk-written_self : chunk_file (written off doc c) c.header.last_chunk_id ≡ filled off doc c
  chunk-written_self =
      get_or-put_at_self (replicate c.chunk_size 0) c.chunks c.header.last_chunk_id
        (filled off doc c)

  chunk-written_ne :
      (i : ℕ) → (c.header.last_chunk_id ≡ i → ⊥) → chunk_file (written off doc c) i ≡ chunk_file c i
  chunk-written_ne i ne =
      get_or-put_at_ne (replicate c.chunk_size 0) c.chunks c.header.last_chunk_id i
        (filled off doc c) ne

  pub sized-written : (i : ℕ) → length (chunk_file (written off doc c) i) ≡ c.chunk_size
  sized-written i = elim (Bool-cases (c.header.last_chunk_id == i)) [
    | inl same ↦
        subst (λ k. length (chunk_file (written off doc c) k) ≡ c.chunk_size)
          ((==_iff c.header.last_chunk_id i).0 same) (ap length chunk-written_self ∙ length-filled)
    | inr differ ↦
        ap length (chunk-written_ne i (ne_of c.header.last_chunk_id i differ)) ∙ v.sized i
  ]

  doc-written :
      (e : EntryMetadata)
      → Holds c.chunk_size c.header.last_chunk_id off e
      → doc_in (chunk_file (written off doc c)) e ≡ doc_in (chunk_file c) e
  doc-written e holds = elim (Bool-cases (e.size == key_not_found)) [
    | inl gone ↦ rw gone refl
    | inr there ↦ rw there (
        ap some (elim (Bool-cases (c.header.last_chunk_id == e.chunk)) [
          | inl same ↦
              let eq = (==_iff c.header.last_chunk_id e.chunk).0 same in
              let (h8, _, _, last) = holds there in
              subst
                (λ k.
                  block (chunk_file (written off doc c) k) e.offset e.size
                  ≡ block (chunk_file c k) e.offset e.size)
                eq
                (ap (λ f. block f e.offset e.size) chunk-written_self
                  ∙ block-filled e.offset e.size h8 (last (sym eq)))
          | inr differ ↦
              ap (λ f. block f e.offset e.size)
                (chunk-written_ne e.chunk (ne_of c.header.last_chunk_id e.chunk differ))
        ]))
  ]

  pub docs-written :
      (es : List EntryMetadata)
      → AllHold c.chunk_size c.header.last_chunk_id off es
      → docs_in (chunk_file (written off doc c)) es ≡ docs_in (chunk_file c) es
  docs-written [] h' = refl
  docs-written (e ∷ es) h' = rw (doc-written e h'.0, docs-written es h'.1)
