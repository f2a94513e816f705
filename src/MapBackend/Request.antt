-- ===== src/MapBackend/Request.antt =====
-- Well-formed requests: the keys one behind the other in a buffer, and their sizes.
use mathlib.Core.List.{append_assoc}
use mochi_rkv.Prelude.{
  ℕ, ◌+◌, ◌<◌, ◌≡◌, refl, sym, ap, false, ◌∙◌, List, [], ◌∷◌, ◌++◌, length, some, arith, ltb,
  length-append, take-length-append, drop-length-append, le→ltb,
}
use native.Mathlib.Nat.{mod-eq_of_lt}
use mochi_rkv.Common.{Bytes, slice, size_mod, add_size}

-- The buffer that holds the items in turn.
abbrev pub concat : List Bytes → Bytes
concat [] = []
concat (k ∷ ks) = k ++ concat ks

abbrev pub sizes_of : List Bytes → List ℕ
sizes_of [] = []
sizes_of (k ∷ ks) = length k ∷ sizes_of ks

pub length-sizes_of : (ks : List Bytes) → length (sizes_of ks) ≡ length ks
length-sizes_of [] = refl
length-sizes_of (k ∷ ks) = omega (arith, length-sizes_of ks)

slice-append :
    (before k rest : Bytes) → slice (before ++ (k ++ rest)) (length before) (length k) ≡ some k
unfolding slice
slice-append before k rest =
    rw
      (le→ltb (length (before ++ (k ++ rest))) (length before + length k)
        (omega (arith, length-append before (k ++ rest), length-append k rest)))
      (rw (drop-length-append before (k ++ rest), take-length-append k rest))

-- A buffer shorter than 2 ^ 64 with the item k behind its part `before`.
module _ (buf before k rest : Bytes) (e : buf ≡ before ++ (k ++ rest)) where
  -- The item is what is read at its offset.
  pub slice_item : slice buf (length before) (length k) ≡ some k
  slice_item = rw e (slice-append before k rest)

  pub later_part : buf ≡ (before ++ k) ++ rest
  later_part = e ∙ sym (append_assoc before k rest)

  pub length_buf : length buf ≡ length before + length k + length rest
  length_buf = omega (arith, ap length e, length-append before (k ++ rest), length-append k rest)

  -- The sum of the sizes so far does not wrap.
  pub next_offset :
      length buf < size_mod → add_size (length before) (length k) ≡ length (before ++ k)
  next_offset h = mod-eq_of_lt (omega (arith, length_buf)) ∙ sym (length-append before k)

  -- The bound check of the item passes.
  pub fits : length buf < size_mod → ltb (length buf) (add_size (length before) (length k)) ≡ false
  fits h = rw (next_offset h) (
      le→ltb (length buf) (length (before ++ k))
        (omega (arith, length_buf, length-append before k)))
