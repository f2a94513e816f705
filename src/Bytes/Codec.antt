-- ===== src/Bytes/Codec.antt =====
-- The 8-byte little-endian image of a size_t, as ofs.write of its address stores it.
use mochi_rkv.Prelude.{ℕ, zero, suc, ◌+◌, ◌*◌, ◌/◌, ◌%◌, ◌<◌, ◌≡◌, refl, [], ◌∷◌, length, arith}
use mochi_rkv.Common.{Bytes, size_mod}

-- The n low bytes of x, lowest first.
unfoldable pub to_le : ℕ → ℕ → Bytes
to_le zero x = []
to_le (suc n) x = x % 256 ∷ to_le n (x / 256)

unfoldable pub of_le : Bytes → ℕ
of_le [] = 0
of_le (b ∷ bs) = b + 256 * of_le bs

pub length-to_le : (n x : ℕ) → length (to_le n x) ≡ n
unfolding to_le
length-to_le zero x = refl
length-to_le (suc n) x = omega (arith, length-to_le n (x / 256))

-- A size_t comes back from its image.
pub of_le-to_le : (x : ℕ) → x < size_mod → of_le (to_le 8 x) ≡ x
unfolding of_le to_le
of_le-to_le x h = omega arith
