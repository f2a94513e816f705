-- ===== src/Filters/Laws.antt =====
-- What the prefix filter accepts, what it copies, and where a listing may stop.
use mochi_rkv.Prelude.{
  ℕ, suc, ◌≡◌, refl, ◌↔◌, min, true, false, [], ◌∷◌, ◌++◌, length, drop, Ordering, ltb, arith,
  length-append, drop-length-append, if◌then◌else◌,
}
use mochi_rkv.Common.{Bytes, Mode}
use mochi_rkv.Bytes.{memcmp}
use mochi_rkv.Bytes.Order.{lex_lt}
use mochi_rkv.Filters.{prefix_check, prefix_should_stop, prefix_key_copy, copy_whole}

memcmp-append : (p r : Bytes) → memcmp (p ++ r) p (length p) ≡ Ordering.eq
unfolding memcmp
memcmp-append [] [] = refl
memcmp-append [] (x ∷ r) = refl
memcmp-append (a ∷ p) r = ground (arith, memcmp-append p r)

length-le-append : (p r : Bytes) → ltb (length (p ++ r)) (length p) ≡ false
length-le-append p r = ground (arith, length-append p r)

prefix_check-append : (p r : Bytes) → prefix_check p (p ++ r) ≡ true
unfolding prefix_check
prefix_check-append p r = rw (length-le-append p r, memcmp-append p r)

prefix_of_check : (p key : Bytes) → prefix_check p key ≡ true → key ≡ p ++ drop (length p) key
unfolding prefix_check
prefix_of_check [] key h = refl
prefix_of_check (a ∷ p) [] h = ground arith
prefix_of_check (a ∷ p) (b ∷ key) h = ground (arith, prefix_of_check p key)

-- KeyPrefixFilter::check passes exactly the keys that begin with the prefix.
pub prefix_check_iff :
    (p key : Bytes) → (prefix_check p key ≡ true) ↔ ((r : Bytes) × (key ≡ p ++ r))
prefix_check_iff p key =
    (λ h. (drop (length p) key, prefix_of_check p key h), λ e. rw e.1 (prefix_check-append p e.0))

-- With NO_PREFIX the copy of a key that passes is the key without its prefix, and without NO_PREFIX
-- it is the key; either fails exactly when the destination has less room than that.
pub prefix_key_copy_lem :
    (mode : Mode) (p r : Bytes) (max : ℕ)
    → prefix_key_copy mode p max (p ++ r) ≡ copy_whole max (if mode.no_prefix then r else p ++ r)
unfolding prefix_key_copy
prefix_key_copy_lem mode p r max = ground (arith, drop-length-append p r)

stop_gt :
    (p key later : Bytes)
    → memcmp key p (min (length key) (length p)) ≡ Ordering.gt
    → lex_lt key later ≡ true
    → prefix_check p later ≡ false
unfolding memcmp lex_lt prefix_check
stop_gt p [] later h l = ground arith
stop_gt [] (a ∷ key) later h l = ground arith
stop_gt (c ∷ p) (a ∷ key) [] h l = ground arith
stop_gt (c ∷ p) (a ∷ key) (b ∷ later) h l =
    ground (arith, stop_gt p key later, omega_min (length key) (length p))
  where
    omega_min : (m n : ℕ) → min (suc m) (suc n) ≡ suc (min m n)
    omega_min m n = omega arith

-- KeyPrefixFilter::shouldStop is sound in the default order: no key above a key at which it says
-- stop passes the filter.
pub prefix_should_stop_sound :
    (p key later : Bytes)
    → prefix_should_stop p key ≡ true
    → lex_lt key later ≡ true
    → prefix_check p later ≡ false
unfolding prefix_should_stop
prefix_should_stop_sound p key later h l = stop_gt p key later (ground arith) l
