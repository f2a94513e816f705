-- ===== src/Bytes/Order.antt =====
-- The default comparator is the lexicographic order of the bytes, a strict total order.
use mochi_rkv.Prelude.{
  ℕ, suc, ◌≡◌, refl, min, Bool, true, false, [], ◌∷◌, length, compare, Ordering, arith,
}
use mochi_rkv.Common.{Bytes}
use mochi_rkv.Bytes.{default_mem_cmp, IsStrictTotal}

-- The dictionary order, a proper prefix first.
unfoldable pub lex_lt : Bytes → Bytes → Bool
lex_lt [] [] = false
lex_lt [] (b ∷ bs) = true
lex_lt (a ∷ l) [] = false
lex_lt (a ∷ l) (b ∷ r) =
    let rest = lex_lt l r in
    elim (compare a b) [ Ordering.lt ↦ true | Ordering.gt ↦ false | Ordering.eq ↦ rest ]

min-suc : (a b : ℕ) → min (suc a) (suc b) ≡ suc (min a b)
min-suc a b = omega arith

pub default_mem_cmp-eq-lex_lt : (l r : Bytes) → default_mem_cmp l r ≡ lex_lt l r
unfolding default_mem_cmp lex_lt
default_mem_cmp-eq-lex_lt [] [] = ground arith
default_mem_cmp-eq-lex_lt [] (b ∷ r) = ground arith
default_mem_cmp-eq-lex_lt (a ∷ l) [] = ground arith
default_mem_cmp-eq-lex_lt (a ∷ l) (b ∷ r) =
    ground (arith, min-suc (length l) (length r), default_mem_cmp-eq-lex_lt l r)

lex_lt_irrefl : (a : Bytes) → lex_lt a a ≡ false
unfolding lex_lt
lex_lt_irrefl [] = refl
lex_lt_irrefl (x ∷ a) = ground (arith, lex_lt_irrefl a)

lex_lt_asym : (a b : Bytes) → lex_lt a b ≡ true → lex_lt b a ≡ false
unfolding lex_lt
lex_lt_asym [] [] h = refl
lex_lt_asym [] (y ∷ b) h = refl
lex_lt_asym (x ∷ a) [] h = cc
lex_lt_asym (x ∷ a) (y ∷ b) h = ground (arith, lex_lt_asym a b)

lex_lt_trans : (a b c : Bytes) → lex_lt a b ≡ true → lex_lt b c ≡ true → lex_lt a c ≡ true
unfolding lex_lt
lex_lt_trans [] [] c h k = cc
lex_lt_trans [] (y ∷ b) [] h k = cc
lex_lt_trans [] (y ∷ b) (z ∷ c) h k = refl
lex_lt_trans (x ∷ a) [] c h k = cc
lex_lt_trans (x ∷ a) (y ∷ b) [] h k = cc
lex_lt_trans (x ∷ a) (y ∷ b) (z ∷ c) h k = ground (arith, lex_lt_trans a b c)

lex_lt_total : (a b : Bytes) → lex_lt a b ≡ false → lex_lt b a ≡ false → a ≡ b
unfolding lex_lt
lex_lt_total [] [] h k = refl
lex_lt_total [] (y ∷ b) h k = cc
lex_lt_total (x ∷ a) [] h k = cc
lex_lt_total (x ∷ a) (y ∷ b) h k = ground (arith, lex_lt_total a b)

pub lex_lt-IsStrictTotal : IsStrictTotal lex_lt
lex_lt-IsStrictTotal = record {
  irrefl = lex_lt_irrefl;
  asym = lex_lt_asym;
  trans = lex_lt_trans;
  total = lex_lt_total;
}

-- DefaultMemCmp is irreflexive, asymmetric and transitive, and two keys neither of which is below
-- the other are the same bytes.
pub default_mem_cmp-IsStrictTotal : IsStrictTotal default_mem_cmp
default_mem_cmp-IsStrictTotal = record {
  irrefl = λ a. simp default_mem_cmp-eq-lex_lt (lex_lt_irrefl a);
  asym = λ a b. simp default_mem_cmp-eq-lex_lt (lex_lt_asym a b);
  trans = λ a b c. simp default_mem_cmp-eq-lex_lt (lex_lt_trans a b c);
  total = λ a b. simp default_mem_cmp-eq-lex_lt (lex_lt_total a b);
}
