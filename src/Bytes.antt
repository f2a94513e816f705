-- ===== src/Bytes.antt =====
-- Byte strings: `memcmp`, the default comparator of src/backends/map.cpp, and the 8-byte
-- little-endian image of a size_t, which the snapshots write.
pub mod Order
pub mod Codec
use mochi_rkv.Prelude.{
  ℕ, suc, ◌≡◌, min, Bool, true, false, ◌∷◌, length, compare, Ordering, ltb, if◌then◌else◌,
}
use mochi_rkv.Common.{Bytes}

-- memcmp on the first n bytes: the sign of its result.
unfoldable pub memcmp : Bytes → Bytes → ℕ → Ordering
memcmp (a ∷ l) (b ∷ r) (suc n) =
    let rest = memcmp l r n in
    elim (compare a b) [
      | Ordering.lt ↦ Ordering.lt
      | Ordering.gt ↦ Ordering.gt
      | Ordering.eq ↦ rest
    ]
memcmp _ _ _ = Ordering.eq

-- MapDatabaseCompare::DefaultMemCmp
unfoldable pub default_mem_cmp : Bytes → Bytes → Bool
unfolding memcmp
default_mem_cmp lhs rhs = elim (memcmp lhs rhs (min (length lhs) (length rhs))) [
  | Ordering.lt ↦ true
  | Ordering.gt ↦ false
  | Ordering.eq ↦ if ltb (length lhs) (length rhs) then true else false
]

-- A comparator of keys that a std::map may be built over, where keys that are equivalent are equal.
pub record IsStrictTotal (cmp : Bytes → Bytes → Bool) : Type 0 where
  pub irrefl : (a : Bytes) → cmp a a ≡ false
  pub asym : (a b : Bytes) → cmp a b ≡ true → cmp b a ≡ false
  pub trans : (a b c : Bytes) → cmp a b ≡ true → cmp b c ≡ true → cmp a c ≡ true
  pub total : (a b : Bytes) → cmp a b ≡ false → cmp b a ≡ false → a ≡ b
