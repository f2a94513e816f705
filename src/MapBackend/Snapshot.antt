-- ===== src/MapBackend/Snapshot.antt =====
-- Migration: the file that is written is read back as the same map.
use mathlib.Core.List.{append_assoc, append-nil}
use mochi_rkv.Prelude.{
  ℕ, zero, suc, ◌+◌, ◌*◌, ◌≤◌, ◌<◌, ◌≡◌, refl, ap, ◌∙◌, Bool, true, false, [], ◌∷◌, ◌++◌, length,
  Option, none, some, arith, ltb, lt→ltb, le→ltb, length-append, take-length-append,
  drop-length-append, length-take, length-drop,
}
use native.Mathlib.Nat.{mod-eq_of_lt}
use mochi_rkv.Common.{Bytes, size_mod, add_size, success}
use mochi_rkv.Bytes.{IsStrictTotal}
use mochi_rkv.Bytes.Codec.{to_le, length-to_le, of_le-to_le}
use mochi_rkv.OrderedMap.{Entries, emplace, Above, IsSorted}
use mochi_rkv.MapBackend.{MapDatabase}
use mochi_rkv.MapBackend.Migration.{
  sizeof_size, snapshot, read, read_entry, recover_loop, recover, ◌>>=◌,
}

-- The front of the file is what is read.
pub read-append : (n : ℕ) (a b : Bytes) → length a ≡ n → read n (a ++ b) ≡ some (a, b)
unfolding read
read-append n a b e = rw (← e) (
    rw (le→ltb (length (a ++ b)) (length a) (omega (arith, length-append a b)))
      (rw (take-length-append a b, drop-length-append a b)))

abbrev framed : Bytes → Bytes → Bytes → Bytes
framed k v rest =
    to_le sizeof_size (length k) ++ (k ++ (to_le sizeof_size (length v) ++ (v ++ rest)))

length-framed :
    (k v rest : Bytes) → length (framed k v rest) ≡ 16 + length k + length v + length rest
length-framed k v rest = omega (
  arith,
  length-append (to_le sizeof_size (length k)) (k ++ (to_le sizeof_size (length v) ++ (v ++ rest))),
  length-append k (to_le sizeof_size (length v) ++ (v ++ rest)),
  length-append (to_le sizeof_size (length v)) (v ++ rest),
  length-append v rest,
  length-to_le sizeof_size (length k),
  length-to_le sizeof_size (length v),
)

-- One entry is read back, whatever follows.
read_entry-framed :
    (k v rest : Bytes)
    → length k < size_mod
    → length v < size_mod
    → read_entry (framed k v rest) ≡ some (k, v, rest)
unfolding read_entry
read_entry-framed k v rest hk hv = simp (
  read-append sizeof_size (to_le sizeof_size (length k))
      (k ++ (to_le sizeof_size (length v) ++ (v ++ rest))) (length-to_le sizeof_size (length k)),
  of_le-to_le (length k) hk,
  read-append (length k) k (to_le sizeof_size (length v) ++ (v ++ rest)) refl,
  read-append sizeof_size (to_le sizeof_size (length v)) (v ++ rest)
      (length-to_le sizeof_size (length v)),
  of_le-to_le (length v) hv,
  read-append (length v) v rest refl,
)

-- The bytes that are read are counted without a wrap.
advance :
    (n k v : ℕ)
    → n + (16 + k + v) < size_mod
    → add_size n (add_size (2 * sizeof_size + k) v) ≡ n + (16 + k + v)
advance n k v h = rw (mod-eq_of_lt {n = 2 * sizeof_size + k + v} {m = size_mod} (omega arith)) (
    rw (mod-eq_of_lt {n = n + (2 * sizeof_size + k + v)} {m = size_mod} (omega arith))
      (omega arith))

recover_loop-step :
    (cmp : Bytes → Bytes → Bool) (fuel total size_read : ℕ) (file k v rest : Bytes) (m : Entries)
    → ltb size_read total ≡ true
    → read_entry file ≡ some (k, v, rest)
    → recover_loop cmp (suc fuel) total size_read file m
      ≡ recover_loop cmp fuel total
          (add_size size_read (add_size (2 * sizeof_size + length k) (length v)))
          rest
          (emplace cmp k v m)
unfolding recover_loop
recover_loop-step cmp fuel total size_read file k v rest m h e = rw (h, recover_loop) (rw e)

recover_loop-done :
    (cmp : Bytes → Bytes → Bool) (fuel total size_read : ℕ) (file : Bytes) (m : Entries)
    → ltb size_read total ≡ false
    → recover_loop cmp (suc fuel) total size_read file m ≡ some (success, m)
unfolding recover_loop
recover_loop-done cmp fuel total size_read file m h = rw h

module _ (cmp : Bytes → Bytes → Bool) (o : IsStrictTotal cmp) where
  Above-middle :
      (j k v : Bytes) (m rest : Entries) → Above cmp j (m ++ (k, v) ∷ rest) → cmp j k ≡ true
  Above-middle j k v [] rest h = h.0
  Above-middle j k v (e ∷ m) rest h = Above-middle j k v m rest h.1

  -- An entry above all others goes to the end.
  emplace_last :
      (k v : Bytes) (m rest : Entries)
      → IsSorted cmp (m ++ (k, v) ∷ rest)
      → emplace cmp k v m ≡ m ++ (k, v) ∷ []
  unfolding emplace
  emplace_last k v [] rest h = refl
  emplace_last k v ((j, w) ∷ m) rest h =
      rw (Above-middle j k v m rest h.0, emplace) (ap (◌∷◌ (j, w)) (emplace_last k v m rest h.1))

  -- The loop reads the entries that are left behind those that it has.
  recover_loop-snapshot :
      (fuel total size_read : ℕ) (m rest : Entries)
      → IsSorted cmp (m ++ rest)
      → size_read + length (snapshot rest) ≡ total
      → total < size_mod
      → length (snapshot rest) ≤ fuel
      → recover_loop cmp (suc fuel) total size_read (snapshot rest) m ≡ some (success, m ++ rest)
  unfolding snapshot
  recover_loop-snapshot fuel total size_read m [] h e t f =
      recover_loop-done cmp fuel total size_read [] m (le→ltb size_read total (omega arith))
      ∙ rw append-nil
  recover_loop-snapshot zero total size_read m ((k, v) ∷ rest) h e t f =
      absurd (omega (arith, length-framed k v (snapshot rest)))
  recover_loop-snapshot (suc fuel) total size_read m ((k, v) ∷ rest) h e t f =
      let len = length-framed k v (snapshot rest) in
      recover_loop-step cmp (suc fuel) total size_read (framed k v (snapshot rest)) k v
        (snapshot rest) m (lt→ltb size_read total (omega (arith, len)))
        (read_entry-framed k v (snapshot rest) (omega (arith, len)) (omega (arith, len)))
      ∙ rw (emplace_last k v m rest h) (
          rw (advance size_read (length k) (length v) (omega (arith, len))) (
            recover_loop-snapshot fuel total (size_read + (16 + length k + length v))
              (m ++ (k, v) ∷ []) rest (rw (append_assoc m ((k, v) ∷ []) rest) h)
              (omega (arith, len)) t (omega (arith, len))
            ∙ ap (λ z. some (success, z)) (append_assoc m ((k, v) ∷ []) rest)))

-- A database that is migrated: recovering from the snapshot, with the same comparator, succeeds and
-- gives a database with the same entries, if the file is shorter than 2 ^ 64 bytes.
pub recover-snapshot :
    (s : MapDatabase)
    → IsStrictTotal s.cmp
    → IsSorted s.cmp s.db
    → length (snapshot s.db) < size_mod
    → recover (success, s.cmp) (some (snapshot s.db) ∷ [])
      ≡ some (success, some (record { cmp = s.cmp; db = s.db; has_migrated = false; watcher = [] }))
unfolding recover
recover-snapshot s o h short = rw (
  recover_loop-snapshot s.cmp o (length (snapshot s.db)) (length (snapshot s.db)) 0 [] s.db h
      (omega arith) short (omega arith),
  recover,
)

-- What is read is taken off the file.
pub read_size :
    (n : ℕ) (file : Bytes) (r : Bytes × Bytes)
    → read n file ≡ some r
    → (length file ≡ length r.0 + length r.1) × (length r.0 ≡ n)
unfolding read
read_size n file r h = ground (arith, length-take n file, length-drop n file)

pub bind_inv {ℓ κ} :
    {A : Type ℓ} {B : Type κ} (m : Option A) (f : A → Option B) {b : B}
    → (m >>= f) ≡ some b
    → (a : A) × (m ≡ some a) × (f a ≡ some b)
bind_inv none f h = cc
bind_inv (some a) f h = (a, refl, h)
