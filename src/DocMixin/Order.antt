-- ===== src/DocMixin/Order.antt =====
-- The keys of documents: they give their ids back, and they are ordered as their ids are.
use mochi_rkv.Prelude.{
  ℕ, zero, suc, true, false, if◌then◌else◌, length-append, drop, le→ltb, ◌+◌, ◌/◌, ◌%◌, ◌^◌, ◌<◌,
  ◌≡◌, refl, sym, ap, ◌∙◌, arith, [], ◌∷◌, ◌++◌, length, some, ltb,
}
use mochi_rkv.Common.{Bytes, size_mod, slice}
use mochi_rkv.Bytes.{default_mem_cmp}
use mochi_rkv.Bytes.Order.{lex_lt, default_mem_cmp-eq-lex_lt}
use mochi_rkv.Bytes.Codec.{to_le, of_le-to_le}
use mochi_rkv.Filters.Endian.{
  ensure_big_endian, to_be, ensure_big_endian-lt, to_le-ensure_big_endian, ensure_big_endian_twice,
}
use mochi_rkv.DocMixin.Keys.{key_from_id, id_from_key}

lex_lt_same_prefix : (p l r : Bytes) → lex_lt (p ++ l) (p ++ r) ≡ lex_lt l r
unfolding lex_lt
lex_lt_same_prefix [] l r = refl
lex_lt_same_prefix (a ∷ p) l r = ground (arith, lex_lt_same_prefix p l r)

-- The last bytes decide where the ones before them do not.
lex_lt-append :
    (l r : Bytes) (x y : ℕ)
    → length l ≡ length r
    → lex_lt (l ++ x ∷ []) (r ++ y ∷ [])
      ≡ (if lex_lt l r then true else if lex_lt r l then false else ltb x y)
unfolding lex_lt
lex_lt-append [] [] x y e = ground arith
lex_lt-append [] (b ∷ r) x y e = absurd (omega (arith, e))
lex_lt-append (a ∷ l) [] x y e = absurd (omega (arith, e))
lex_lt-append (a ∷ l) (b ∷ r) x y e = ground (arith, lex_lt-append l r x y (omega (arith, e)))

-- The n low bytes of a number, highest first.
be_bytes : ℕ → ℕ → Bytes
be_bytes zero a = []
be_bytes (suc n) a = be_bytes n (a / 256) ++ a % 256 ∷ []

length-be_bytes : (n a : ℕ) → length (be_bytes n a) ≡ n
unfolding be_bytes
length-be_bytes zero a = refl
length-be_bytes (suc n) a =
    omega (arith, length-append (be_bytes n (a / 256)) (a % 256 ∷ []), length-be_bytes n (a / 256))

lex_lt-be_bytes :
    (n a b : ℕ) → a < 256 ^ n → b < 256 ^ n → lex_lt (be_bytes n a) (be_bytes n b) ≡ ltb a b
unfolding be_bytes lex_lt
lex_lt-be_bytes zero a b h h' = ground arith
lex_lt-be_bytes (suc n) a b h h' =
    rw
      (
        lex_lt-append (be_bytes n (a / 256)) (be_bytes n (b / 256)) (a % 256) (b % 256)
            (length-be_bytes n (a / 256) ∙ sym (length-be_bytes n (b / 256))),
        lex_lt-be_bytes n (a / 256) (b / 256) (omega arith) (omega arith),
        lex_lt-be_bytes n (b / 256) (a / 256) (omega arith) (omega arith),
      )
      (ground arith)

to_be_lem : (a : ℕ) → a < size_mod → to_be a ≡ be_bytes 8 a
unfolding to_be be_bytes
to_be_lem a h = ground arith

lex_lt-to_be : (a b : ℕ) → a < size_mod → b < size_mod → lex_lt (to_be a) (to_be b) ≡ ltb a b
lex_lt-to_be a b h h' = rw (to_be_lem a h, to_be_lem b h') (lex_lt-be_bytes 8 a b h h')

-- Under the default comparator the keys of the documents of a collection are ordered as their ids,
-- for ids below 2 ^ 64.
key_order_lem :
    (name : Bytes) (a b : ℕ)
    → a < size_mod
    → b < size_mod
    → default_mem_cmp (key_from_id name a) (key_from_id name b) ≡ ltb a b
unfolding key_from_id
key_order_lem name a b h h' =
    rw
      (
        default_mem_cmp-eq-lex_lt (name ++ 0 ∷ to_le 8 (ensure_big_endian a))
            (name ++ 0 ∷ to_le 8 (ensure_big_endian b)),
        lex_lt_same_prefix name (0 ∷ to_le 8 (ensure_big_endian a))
            (0 ∷ to_le 8 (ensure_big_endian b)),
        lex_lt_same_prefix (0 ∷ []) (to_le 8 (ensure_big_endian a)) (to_le 8 (ensure_big_endian b)),
        to_le-ensure_big_endian a h,
        to_le-ensure_big_endian b h',
      )
      (lex_lt-to_be a b h h')

suc_add_one : (n : ℕ) → suc n + 1 ≡ suc (n + 1)
suc_add_one n = omega arith

drop_name : (p : Bytes) (z : ℕ) (r : Bytes) → drop (length p + 1) (p ++ z ∷ r) ≡ r
drop_name [] z r = refl
drop_name (a ∷ p) z r = rw (suc_add_one (length p)) (drop_name p z r)

key_slice :
    (name : Bytes) (id : ℕ)
    → slice (key_from_id name id) (length name + 1) 8 ≡ some (to_le 8 (ensure_big_endian id))
unfolding key_from_id slice to_le
key_slice name id =
    rw
      (
        le→ltb (length (name ++ 0 ∷ to_le 8 (ensure_big_endian id))) (length name + 1 + 8)
            (omega (arith, length-append name (0 ∷ to_le 8 (ensure_big_endian id)))),
        drop_name name 0 (to_le 8 (ensure_big_endian id)),
      )
      refl

-- The key of a document gives its id back, for an id below 2 ^ 64.
pub id_from_key-key_from_id :
    (name : Bytes) (id : ℕ)
    → id < size_mod
    → id_from_key (length name) (key_from_id name id) ≡ some id
unfolding id_from_key key_from_id
id_from_key-key_from_id name id h =
    rw (key_slice name id, id_from_key)
      (ap some (
        ap ensure_big_endian (of_le-to_le (ensure_big_endian id) (ensure_big_endian-lt id h))
        ∙ ensure_big_endian_twice id h))
