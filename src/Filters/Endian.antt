-- ===== src/Filters/Endian.antt =====
-- _ensureBigEndian of src/server/util/filters.cpp and include/yokan/doc-mixin.hpp, on a
-- little-endian host.
use mochi_rkv.Prelude.{
  ℕ, ◌+◌, ◌*◌, ◌/◌, ◌%◌, ◌^◌, ◌<◌, ◌≡◌, refl, sym, ap, ◌∙◌, arith, List, [], ◌∷◌,
}
use mochi_rkv.Common.{size_mod}
use mochi_rkv.Bytes.Codec.{to_le, of_le, of_le-to_le}
use mathlib.Core.List.{reverse, reverse-reverse}
use mathlib.Core.Path.{◌≡⟨◌⟩◌, ◌∎}

-- x = (x & 0x00000000FFFFFFFF) << 32 | (x & 0xFFFFFFFF00000000) >> 32. The two halves do not
-- overlap, so `|` is a sum; a mask is a remainder, a shift a product or a quotient.
swap_halves : ℕ → ℕ
swap_halves x = x % 2 ^ 32 * 2 ^ 32 + x / 2 ^ 32

-- The same within each half by 16 bits, and within each quarter by 8.
swap_quarters : ℕ → ℕ
swap_quarters x =
    x % 2 ^ 16 * 2 ^ 16 + x / 2 ^ 16 % 2 ^ 16 + (x / 2 ^ 32 % 2 ^ 16 * 2 ^ 48 + x / 2 ^ 48 * 2 ^ 32)

swap_bytes : ℕ → ℕ
swap_bytes x =
    x % 2 ^ 8 * 2 ^ 8
    + x / 2 ^ 8 % 2 ^ 8
    + (x / 2 ^ 16 % 2 ^ 8 * 2 ^ 24 + x / 2 ^ 24 % 2 ^ 8 * 2 ^ 16)
    + (x / 2 ^ 32 % 2 ^ 8 * 2 ^ 40
        + x / 2 ^ 40 % 2 ^ 8 * 2 ^ 32
        + (x / 2 ^ 48 % 2 ^ 8 * 2 ^ 56 + x / 2 ^ 56 * 2 ^ 48))

unfoldable pub ensure_big_endian : ℕ → ℕ
unfolding swap_halves swap_quarters swap_bytes
ensure_big_endian id = swap_bytes (swap_quarters (swap_halves id))

halves_test : ensure_big_endian 0x0102030405060708 ≡ 0x0807060504030201
unfolding ensure_big_endian
halves_test = refl

-- The eight bytes of a 64-bit number, highest first.
unfoldable pub to_be : ℕ → List ℕ
to_be x =
    x / 2 ^ 56
    ∷ x / 2 ^ 48 % 256
    ∷ x / 2 ^ 40 % 256
    ∷ x / 2 ^ 32 % 256
    ∷ x / 2 ^ 24 % 256
    ∷ x / 2 ^ 16 % 256
    ∷ x / 2 ^ 8 % 256
    ∷ x % 256
    ∷ []

module _ (x : ℕ) (h : x < size_mod) where
  pub ensure_big_endian-lt : ensure_big_endian x < size_mod
  unfolding ensure_big_endian
  ensure_big_endian-lt = omega arith

  -- What is stored for an id on a little-endian host is its big-endian image.
  pub to_le-ensure_big_endian : to_le 8 (ensure_big_endian x) ≡ to_be x
  unfolding ensure_big_endian to_le to_be
  to_le-ensure_big_endian = ground arith

pub to_be-reverse : (x : ℕ) → x < size_mod → to_be x ≡ reverse (to_le 8 x)
unfolding to_be to_le
to_be-reverse x h = ground arith

-- Swapping the bytes of a 64-bit number twice gives it back.
pub ensure_big_endian_twice : (x : ℕ) → x < size_mod → ensure_big_endian (ensure_big_endian x) ≡ x
ensure_big_endian_twice x h =
    let y : ℕ = ensure_big_endian x in
    let hy : y < size_mod = ensure_big_endian-lt x h in
    ensure_big_endian y
    ≡⟨ sym (of_le-to_le (ensure_big_endian y) (ensure_big_endian-lt y hy)) ⟩
      of_le (to_le 8 (ensure_big_endian y))
    ≡⟨ ap of_le (to_le-ensure_big_endian y hy ∙ to_be-reverse y hy) ⟩ of_le (reverse (to_le 8 y))
    ≡⟨ ap (λ l. of_le (reverse l)) (to_le-ensure_big_endian x h ∙ to_be-reverse x h) ⟩
      of_le (reverse (reverse (to_le 8 x)))
    ≡⟨ ap of_le (reverse-reverse (to_le 8 x)) ⟩ of_le (to_le 8 x)
    ≡⟨ of_le-to_le x h ⟩ x ∎
