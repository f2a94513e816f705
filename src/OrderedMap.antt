-- ===== src/OrderedMap.antt =====
-- std::map as src/backends/map.cpp uses it: the entries in the order of the comparator.
pub mod Lookup
pub mod Sorted
use mochi_rkv.Prelude.{
  ℕ, Bool, true, false, ◌≡◌, Option, none, some, List, [], ◌∷◌, length, if◌then◌else◌,
}
use mochi_rkv.Common.{Bytes}

abbrev pub Entry : Type 0
Entry = Bytes × Bytes

abbrev pub Entries : Type 0
Entries = List Entry

module _ (cmp : Bytes → Bytes → Bool) where
  -- it = m.find(k), and it->second where it is not the end.
  unfoldable pub find : Bytes → Entries → Option Bytes
  find k [] = none
  find k ((j, v) ∷ m) =
      let rest = find k m in if cmp j k then rest else if cmp k j then none else some v

  -- m.emplace(k, v): an entry that is there stays.
  unfoldable pub emplace : Bytes → Bytes → Entries → Entries
  emplace k v [] = (k, v) ∷ []
  emplace k v ((j, w) ∷ m) =
      let rest = emplace k v m in
      if cmp j k then (j, w) ∷ rest else if cmp k j then (k, v) ∷ (j, w) ∷ m else (j, w) ∷ m

  -- it->second = f(it->second) at it = m.find(k).
  unfoldable pub modify : Bytes → (Bytes → Bytes) → Entries → Entries
  modify k f [] = []
  modify k f ((j, w) ∷ m) =
      let rest = modify k f m in
      if cmp j k then (j, w) ∷ rest else if cmp k j then (j, w) ∷ m else (j, f w) ∷ m

  -- m.erase(it) at it = m.find(k).
  unfoldable pub erase : Bytes → Entries → Entries
  erase k [] = []
  erase k ((j, w) ∷ m) =
      let rest = erase k m in if cmp j k then (j, w) ∷ rest else if cmp k j then (j, w) ∷ m else m

  -- The entries from m.lower_bound(k) on, and those from m.upper_bound(k) on.
  unfoldable pub lower_bound : Bytes → Entries → Entries
  lower_bound k [] = []
  lower_bound k ((j, w) ∷ m) = let rest = lower_bound k m in if cmp j k then rest else (j, w) ∷ m

  unfoldable pub upper_bound : Bytes → Entries → Entries
  upper_bound k [] = []
  upper_bound k ((j, w) ∷ m) = let rest = upper_bound k m in if cmp k j then (j, w) ∷ m else rest

  -- Every key is above k.
  abbrev pub Above : Bytes → Entries → Type 0
  Above k [] = Unit {0}
  Above k ((j, v) ∷ m) = (cmp k j ≡ true) × Above k m

  -- The keys rise along the list, so each stands once.
  abbrev pub IsSorted : Entries → Type 0
  IsSorted [] = Unit {0}
  IsSorted ((j, v) ∷ m) = Above j m × IsSorted m
