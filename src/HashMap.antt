-- ===== src/HashMap.antt =====
-- std::unordered_map as src/backends/unordered_map.cpp uses it: keys are compared by their bytes. A new
-- entry stands behind the others; the order in which the table is walked is unspecified, and where the
-- source walks it, it is an argument.
pub mod Laws
use mochi_rkv.Prelude.{Bool, true, false, ◌≡◌, List, [], ◌∷◌, Option, none, some, if◌then◌else◌}
use mochi_rkv.Common.{Bytes}
use mochi_rkv.Watcher.{same_key}
use mochi_rkv.OrderedMap.{Entries}

-- m.find(k), and m.count(k) > 0.
unfoldable pub find : Bytes → Entries → Option Bytes
find k [] = none
find k ((j, v) ∷ m) = if same_key j k then some v else find k m

-- m.emplace(k, v): an entry that is there stays.
unfoldable pub emplace : Bytes → Bytes → Entries → Entries
emplace k v [] = (k, v) ∷ []
emplace k v ((j, w) ∷ m) =
    let rest = emplace k v m in if same_key j k then (j, w) ∷ m else (j, w) ∷ rest

-- it->second = f(it->second) at it = m.find(k).
unfoldable pub modify : Bytes → (Bytes → Bytes) → Entries → Entries
modify k f [] = []
modify k f ((j, w) ∷ m) =
    let rest = modify k f m in if same_key j k then (j, f w) ∷ m else (j, w) ∷ rest

-- m.erase(it) at it = m.find(k).
unfoldable pub erase : Bytes → Entries → Entries
erase k [] = []
erase k ((j, w) ∷ m) = let rest = erase k m in if same_key j k then m else (j, w) ∷ rest

-- Each key stands once.
abbrev pub IsUnique : Entries → Type 0
IsUnique [] = Unit {0}
IsUnique ((k, v) ∷ m) = (find k m ≡ none) × IsUnique m
