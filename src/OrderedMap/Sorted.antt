-- ===== src/OrderedMap/Sorted.antt =====
-- Every change of a map keeps its entries in order.
use mochi_rkv.Prelude.{Bool, true, ◌≡◌, [], ◌∷◌, arith}
use mochi_rkv.Common.{Bytes}
use mochi_rkv.Bytes.{IsStrictTotal}
use mochi_rkv.OrderedMap.{Entries, emplace, modify, erase, Above, IsSorted}

module _ (cmp : Bytes → Bytes → Bool) (o : IsStrictTotal cmp) where
  pub Above-trans : (a b : Bytes) (m : Entries) → cmp a b ≡ true → Above cmp b m → Above cmp a m
  Above-trans a b [] h s = tt
  Above-trans a b ((j, v) ∷ m) h s = (o.trans a b j h s.0, Above-trans a b m h s.1)

  Above-emplace :
      (a k v : Bytes) (m : Entries)
      → cmp a k ≡ true
      → Above cmp a m
      → Above cmp a (emplace cmp k v m)
  unfolding emplace
  Above-emplace a k v [] h s = (h, tt)
  Above-emplace a k v ((j, w) ∷ m) h s = ground (arith, Above-emplace a k v m h s.1)

  pub IsSorted-emplace :
      (k v : Bytes) (m : Entries) → IsSorted cmp m → IsSorted cmp (emplace cmp k v m)
  unfolding emplace
  IsSorted-emplace k v [] s = (tt, tt)
  IsSorted-emplace k v ((j, w) ∷ m) s =
      ground (arith, Above-emplace j k v m, Above-trans k j m, IsSorted-emplace k v m s.1)

  Above-modify :
      (a k : Bytes) (f : Bytes → Bytes) (m : Entries)
      → Above cmp a m
      → Above cmp a (modify cmp k f m)
  unfolding modify
  Above-modify a k f [] s = tt
  Above-modify a k f ((j, w) ∷ m) s = ground (arith, Above-modify a k f m s.1)

  pub IsSorted-modify :
      (k : Bytes) (f : Bytes → Bytes) (m : Entries)
      → IsSorted cmp m
      → IsSorted cmp (modify cmp k f m)
  unfolding modify
  IsSorted-modify k f [] s = tt
  IsSorted-modify k f ((j, w) ∷ m) s =
      ground (arith, Above-modify j k f m s.0, IsSorted-modify k f m s.1)

  Above-erase : (a k : Bytes) (m : Entries) → Above cmp a m → Above cmp a (erase cmp k m)
  unfolding erase
  Above-erase a k [] s = tt
  Above-erase a k ((j, w) ∷ m) s = ground (arith, Above-erase a k m s.1)

  pub IsSorted-erase : (k : Bytes) (m : Entries) → IsSorted cmp m → IsSorted cmp (erase cmp k m)
  unfolding erase
  IsSorted-erase k [] s = tt
  IsSorted-erase k ((j, w) ∷ m) s = ground (arith, Above-erase j k m s.0, IsSorted-erase k m s.1)
