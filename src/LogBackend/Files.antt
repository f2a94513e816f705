-- ===== src/LogBackend/Files.antt =====
-- Copies into a file: what they change and what they leave.
use mochi_rkv.Prelude.{
  ℕ, zero, suc, ◌+◌, ◌≤◌, ◌<◌, ◌≡◌, refl, ap, List, [], ◌∷◌, ◌++◌, length, take, drop, arith,
  le→ltb,
}
use native.Mathlib.Nat.{mod-eq_of_lt}
use mochi_rkv.Common.{Bytes, success, returned, slice, size_mod}
use mochi_rkv.LogBackend.File.{overwrite, write, read, Read}
use mochi_rkv.LogBackend.Collection.{get_or, put_at}

-- The n bytes at an offset.
abbrev pub block : Bytes → ℕ → ℕ → Bytes
block file off n = take n (drop off file)

pub length-overwrite :
    (file : Bytes) (off : ℕ) (b : Bytes) → length (overwrite file off b) ≡ length file
unfolding overwrite
length-overwrite [] off b = refl
length-overwrite (x ∷ file) zero [] = refl
length-overwrite (x ∷ file) zero (y ∷ b) = ap suc (length-overwrite file zero b)
length-overwrite (x ∷ file) (suc off) b = ap suc (length-overwrite file off b)

-- What is before the copy stays.
pub block-overwrite_before :
    (file : Bytes) (off : ℕ) (b : Bytes) (o n : ℕ)
    → o + n ≤ off
    → block (overwrite file off b) o n ≡ block file o n
unfolding overwrite
block-overwrite_before [] off b o n h = refl
block-overwrite_before (x ∷ file) off b o zero h = refl
block-overwrite_before (x ∷ file) zero b o (suc n) h = absurd (omega arith)
block-overwrite_before (x ∷ file) (suc off) b zero (suc n) h =
    ap (◌∷◌ x) (block-overwrite_before file off b zero n (omega arith))
block-overwrite_before (x ∷ file) (suc off) b (suc o) (suc n) h =
    block-overwrite_before file off b o (suc n) (omega arith)

-- What is behind the copy stays.
pub block-overwrite_behind :
    (file : Bytes) (off : ℕ) (b : Bytes) (o n : ℕ)
    → off + length b ≤ o
    → block (overwrite file off b) o n ≡ block file o n
unfolding overwrite
block-overwrite_behind [] off b o n h = refl
block-overwrite_behind (x ∷ file) zero [] o n h = refl
block-overwrite_behind (x ∷ file) zero (y ∷ b) zero n h = absurd (omega arith)
block-overwrite_behind (x ∷ file) zero (y ∷ b) (suc o) n h =
    block-overwrite_behind file zero b o n (omega arith)
block-overwrite_behind (x ∷ file) (suc off) b zero n h = absurd (omega arith)
block-overwrite_behind (x ∷ file) (suc off) b (suc o) n h =
    block-overwrite_behind file off b o n (omega arith)

-- The copy is there.
pub block-overwrite :
    (file : Bytes) (off : ℕ) (b : Bytes)
    → off + length b ≤ length file
    → block (overwrite file off b) off (length b) ≡ b
unfolding overwrite
block-overwrite [] zero [] h = refl
block-overwrite [] zero (y ∷ b) h = absurd (omega arith)
block-overwrite [] (suc off) b h = absurd (omega arith)
block-overwrite (x ∷ file) zero [] h = refl
block-overwrite (x ∷ file) zero (y ∷ b) h = ap (◌∷◌ y) (block-overwrite file zero b (omega arith))
block-overwrite (x ∷ file) (suc off) b h = block-overwrite file off b (omega arith)

module _ (file : Bytes) (off : ℕ) (small : length file < size_mod) where
  -- A write inside of the file succeeds.
  pub write_inside :
      (b : Bytes)
      → off + length b ≤ length file
      → write file off b ≡ (returned success, overwrite file off b)
  unfolding write slice
  write_inside b h =
      rw (mod-eq_of_lt {n = off + length b} {m = size_mod} (omega arith))
        (rw (le→ltb (length file) (off + length b) h) refl)

  pub read_inside :
      (n : ℕ) → off + n ≤ length file → read file off n ≡ Read.bytes (block file off n)
  unfolding read slice
  read_inside n h =
      rw (mod-eq_of_lt {n = off + n} {m = size_mod} (omega arith))
        (rw (le→ltb (length file) (off + n) h) refl)

module _ {ℓ} {A : Type ℓ} (z : A) where
  pub get_or-put_at_self : (xs : List A) (i : ℕ) (v : A) → get_or z (put_at z xs i v) i ≡ v
  get_or-put_at_self [] zero v = refl
  get_or-put_at_self [] (suc i) v = get_or-put_at_self [] i v
  get_or-put_at_self (x ∷ xs) zero v = refl
  get_or-put_at_self (x ∷ xs) (suc i) v = get_or-put_at_self xs i v

  pub get_or-put_at_ne :
      (xs : List A) (i j : ℕ) (v : A) → (i ≡ j → ⊥) → get_or z (put_at z xs i v) j ≡ get_or z xs j
  get_or-put_at_ne [] zero zero v h = absurd (h refl)
  get_or-put_at_ne [] zero (suc j) v h = refl
  get_or-put_at_ne [] (suc i) zero v h = refl
  get_or-put_at_ne [] (suc i) (suc j) v h = get_or-put_at_ne [] i j v λ e. h (ap suc e)
  get_or-put_at_ne (x ∷ xs) zero zero v h = absurd (h refl)
  get_or-put_at_ne (x ∷ xs) zero (suc j) v h = refl
  get_or-put_at_ne (x ∷ xs) (suc i) zero v h = refl
  get_or-put_at_ne (x ∷ xs) (suc i) (suc j) v h = get_or-put_at_ne xs i j v λ e. h (ap suc e)

  -- The place behind the last.
  pub put_at_end : (xs : List A) (v : A) → put_at z xs (length xs) v ≡ xs ++ v ∷ []
  put_at_end [] v = refl
  put_at_end (x ∷ xs) v = ap (◌∷◌ x) (put_at_end xs v)
