-- ===== src/OrderedSet.antt =====
-- std::set as src/backends/set.cpp uses it: the keys in the order of the comparator.
use mochi_rkv.Prelude.{Bool, true, false, List, [], ◌∷◌, if◌then◌else◌}
use mochi_rkv.Common.{Bytes}
use mochi_rkv.OrderedMap.{Entries}

module _ (cmp : Bytes → Bytes → Bool) where
  -- s.find(k) != s.end()
  unfoldable pub contains : Bytes → List Bytes → Bool
  contains k [] = false
  contains k (j ∷ l) =
      let rest = contains k l in if cmp j k then rest else if cmp k j then false else true

  -- s.emplace(k)
  unfoldable pub emplace : Bytes → List Bytes → List Bytes
  emplace k [] = k ∷ []
  emplace k (j ∷ l) =
      let rest = emplace k l in if cmp j k then j ∷ rest else if cmp k j then k ∷ j ∷ l else j ∷ l

  -- s.erase(it) at it = s.find(k).
  unfoldable pub erase : Bytes → List Bytes → List Bytes
  erase k [] = []
  erase k (j ∷ l) =
      let rest = erase k l in if cmp j k then j ∷ rest else if cmp k j then j ∷ l else l

  -- The keys from s.lower_bound(k) on, and those from s.upper_bound(k) on.
  unfoldable pub lower_bound : Bytes → List Bytes → List Bytes
  lower_bound k [] = []
  lower_bound k (j ∷ l) = let rest = lower_bound k l in if cmp j k then rest else j ∷ l

  unfoldable pub upper_bound : Bytes → List Bytes → List Bytes
  upper_bound k [] = []
  upper_bound k (j ∷ l) = let rest = upper_bound k l in if cmp k j then j ∷ l else rest

-- The map with these keys, each with the empty value.
abbrev pub with_empty : List Bytes → Entries
with_empty [] = []
with_empty (k ∷ l) = (k, []) ∷ with_empty l
