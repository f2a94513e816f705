-- ===== src/HashMap/Laws.antt =====
-- What `find` says after each change of a hash map, and that its keys stay unique.
use mochi_rkv.Prelude.{◌≡◌, refl, Bool, none, some, [], ◌∷◌, arith, if◌then◌else◌}
use mochi_rkv.Common.{Bytes}
use mochi_rkv.Bytes.{IsStrictTotal}
use mochi_rkv.Watcher.{same_key}
use mochi_rkv.Watcher.Laws.{same_key_refl, same_key_sound}
use mochi_rkv.OrderedMap.{Entries}
use mochi_rkv.OrderedMap.Lookup.{if_same, or_else, map_value}
use mochi_rkv.HashMap.{find, emplace, modify, erase, IsUnique}

-- A strict total order tells apart the keys that differ.
pub if_same-same_key {ℓ} :
    {A : Type ℓ} (cmp : Bytes → Bytes → Bool) (o : IsStrictTotal cmp) (k j : Bytes) (x y : A)
    → if_same cmp k j x y ≡ (if same_key k j then x else y)
if_same-same_key cmp o k j x y =
    ground (arith, same_key_sound k j, same_key_refl k, o.irrefl k, o.total k j)

pub find-emplace :
    (k j v : Bytes) (m : Entries)
    → find j (emplace k v m) ≡ (if same_key k j then or_else (find k m) v else find j m)
unfolding find emplace
find-emplace k j v [] = ground arith
find-emplace k j v ((i, w) ∷ m) = ground (
  arith,
  find-emplace k j v m,
  same_key_sound i k,
  same_key_sound i j,
  same_key_sound k j,
  same_key_refl i,
  same_key_refl j,
)

pub find-modify :
    (k j : Bytes) (f : Bytes → Bytes) (m : Entries)
    → find j (modify k f m) ≡ (if same_key k j then map_value f (find k m) else find j m)
unfolding find modify
find-modify k j f [] = ground arith
find-modify k j f ((i, w) ∷ m) = ground (
  arith,
  find-modify k j f m,
  same_key_sound i k,
  same_key_sound i j,
  same_key_sound k j,
  same_key_refl i,
  same_key_refl j,
)

pub find-erase :
    (k j : Bytes) (m : Entries)
    → IsUnique m
    → find j (erase k m) ≡ (if same_key k j then none else find j m)
unfolding find erase
find-erase k j [] u = ground arith
find-erase k j ((i, w) ∷ m) u = ground (
  arith,
  find-erase k j m u.1,
  u.0,
  same_key_sound i k,
  same_key_sound i j,
  same_key_sound k j,
  same_key_refl i,
  same_key_refl j,
)

pub IsUnique-emplace : (k v : Bytes) (m : Entries) → IsUnique m → IsUnique (emplace k v m)
unfolding emplace find
IsUnique-emplace k v [] u = (refl, tt)
IsUnique-emplace k v ((i, w) ∷ m) u =
    ground
      (arith, IsUnique-emplace k v m u.1, find-emplace k i v m, same_key_sound k i, same_key_refl i)

pub IsUnique-modify :
    (k : Bytes) (f : Bytes → Bytes) (m : Entries) → IsUnique m → IsUnique (modify k f m)
unfolding modify
IsUnique-modify k f [] u = tt
IsUnique-modify k f ((i, w) ∷ m) u =
    ground
      (arith, IsUnique-modify k f m u.1, find-modify k i f m, same_key_sound k i, same_key_refl i)

pub IsUnique-erase : (k : Bytes) (m : Entries) → IsUnique m → IsUnique (erase k m)
unfolding erase
IsUnique-erase k [] u = tt
IsUnique-erase k ((i, w) ∷ m) u =
    ground
      (arith, IsUnique-erase k m u.1, find-erase k i m u.1, same_key_sound k i, same_key_refl i)

-- An entry that is there stays as it is.
pub emplace_there : (k v w : Bytes) (m : Entries) → find k m ≡ some w → emplace k v m ≡ m
unfolding find emplace
emplace_there k v w [] h = cc
emplace_there k v w ((i, x) ∷ m) h = ground (arith, emplace_there k v w m)
