-- ===== src/OrderedMap/Lookup.antt =====
-- What `find` says after each change of a map.
use mochi_rkv.Prelude.{Bool, true, ◌≡◌, refl, Option, none, some, [], ◌∷◌, arith, if◌then◌else◌}
use mochi_rkv.Common.{Bytes}
use mochi_rkv.Bytes.{IsStrictTotal}
use mochi_rkv.OrderedMap.Sorted.{Above-trans}
use mochi_rkv.OrderedMap.{Entries, find, emplace, modify, erase, Above, IsSorted}

-- Neither key is below the other.
abbrev pub if_same {ℓ} : {A : Type ℓ} → (Bytes → Bytes → Bool) → Bytes → Bytes → A → A → A
if_same cmp k j x y = if cmp k j then y else if cmp j k then y else x

abbrev pub or_else : Option Bytes → Bytes → Option Bytes
or_else none v = some v
or_else (some w) v = some w

abbrev pub map_value : (Bytes → Bytes) → Option Bytes → Option Bytes
map_value f none = none
map_value f (some w) = some (f w)

module _ (cmp : Bytes → Bytes → Bool) (o : IsStrictTotal cmp) where
  pub find-emplace :
      (k j v : Bytes) (m : Entries)
      → find cmp j (emplace cmp k v m) ≡ if_same cmp k j (or_else (find cmp k m) v) (find cmp j m)
  unfolding find emplace
  find-emplace k j v [] = ground arith
  find-emplace k j v ((i, w) ∷ m) = ground (
    arith,
    find-emplace k j v m,
    o.total k i,
    o.total i j,
    o.total k j,
    o.asym k j,
    o.asym i j,
    o.asym j i,
    o.asym i k,
    o.trans k i j,
    o.trans j k i,
    o.trans i k j,
    o.trans j i k,
    o.irrefl i,
  )

  pub find-modify :
      (k j : Bytes) (f : Bytes → Bytes) (m : Entries)
      → find cmp j (modify cmp k f m) ≡ if_same cmp k j (map_value f (find cmp k m)) (find cmp j m)
  unfolding find modify
  find-modify k j f [] = ground arith
  find-modify k j f ((i, w) ∷ m) = ground (
    arith,
    find-modify k j f m,
    o.total k i,
    o.total i j,
    o.total k j,
    o.asym k j,
    o.asym i j,
    o.asym j i,
    o.asym i k,
    o.trans k i j,
    o.trans j k i,
    o.trans i k j,
    o.trans j i k,
    o.irrefl i,
  )

  find-Above : (k : Bytes) (m : Entries) → Above cmp k m → find cmp k m ≡ none
  unfolding find
  find-Above k [] a = refl
  find-Above k ((i, w) ∷ m) a = ground (arith, o.asym k i)

  find-below : (k j : Bytes) (m : Entries) → Above cmp j m → cmp k j ≡ true → find cmp k m ≡ none
  find-below k j m a h = find-Above k m (Above-trans cmp o k j m h a)

  pub find-erase :
      (k j : Bytes) (m : Entries)
      → IsSorted cmp m
      → find cmp j (erase cmp k m) ≡ if_same cmp k j none (find cmp j m)
  unfolding find erase
  find-erase k j [] s = ground arith
  find-erase k j ((i, w) ∷ m) s = ground (
    arith,
    find-erase k j m s.1,
    find-Above i m s.0,
    find-below j i m s.0,
    find-Above k m,
    o.total k i,
    o.total i j,
    o.total k j,
    o.asym k j,
    o.asym i j,
    o.asym j i,
    o.asym i k,
    o.trans k i j,
    o.trans j k i,
    o.trans i k j,
    o.trans j i k,
    o.irrefl i,
  )
