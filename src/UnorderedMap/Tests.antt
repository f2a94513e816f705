-- ===== src/UnorderedMap/Tests.antt =====
-- Runs of the database of src/backends/unordered_map.cpp at small inputs, and its theorem at such an
-- input.
use mochi_rkv.Prelude.{ℕ, Bool, ◌≡◌, refl, false, List, [], ◌∷◌}
use mochi_rkv.Common.{Mode, mode_of, UserMem, slice}
use mochi_rkv.Bytes.{default_mem_cmp}
use mochi_rkv.Bytes.Order.{default_mem_cmp-IsStrictTotal}
use mochi_rkv.OrderedMap
use mochi_rkv.HashMap
use mochi_rkv.HashMap.{find}
use mochi_rkv.MapBackend
use mochi_rkv.MapBackend.{MapDatabase, after_look}
use mochi_rkv.MapBackend.Read as MapRead
use mochi_rkv.MapBackend.Write as MapWrite
use mochi_rkv.UnorderedMap.{UnorderedMapDatabase, Wake}
use mochi_rkv.UnorderedMap.Read.{exists, value_length, get}
use mochi_rkv.UnorderedMap.Write.{put, put_key, erase}
use mochi_rkv.UnorderedMap.Related.{Related, AllRelated, Same, Related-emplaced}
use mochi_rkv.UnorderedMap.Puts.{SamePut}
use mochi_rkv.UnorderedMap.Bisimilar.{SameGet, unordered_refines_map}

abbrev no_entries : UnorderedMapDatabase
no_entries = record { db = []; has_migrated = false; watcher = [] }

abbrev no_pairs : MapDatabase
no_pairs = record { cmp = default_mem_cmp; db = []; has_migrated = false; watcher = [] }

empty-Related : Related no_entries no_pairs
unfolding HashMap.find OrderedMap.find
empty-Related = record {
  order = default_mem_cmp-IsStrictTotal;
  sorted = tt;
  unique = tt;
  values = λ k. refl;
  migrated = refl;
  watchers = refl;
}

-- One entry in each.
abbrev one_entry : UnorderedMapDatabase
one_entry = record no_entries { db = HashMap.emplace (2 ∷ []) (7 ∷ []) [] }

abbrev one_pair : MapDatabase
one_pair = record no_pairs { db = OrderedMap.emplace default_mem_cmp (2 ∷ []) (7 ∷ []) [] }

abbrev eats : Mode
eats = mode_of 0x4

abbrev two_keys : UserMem
two_keys = record { addr = 100; bytes = 2 ∷ 1 ∷ [] }

stores_both :
    (put eats two_keys (1 ∷ 1 ∷ []) two_keys (1 ∷ 1 ∷ []) no_entries).1.db
    ≡ (2 ∷ [], 2 ∷ []) ∷ (1 ∷ [], 1 ∷ []) ∷ []
unfolding put put_key mode_of slice HashMap.find HashMap.emplace
stores_both = refl

unordered_refines_map_example :
    ((nflags : ℕ)
      → Same
          (exists eats two_keys (1 ∷ 1 ∷ []) nflags [] one_entry)
          (MapRead.exists eats two_keys (1 ∷ 1 ∷ []) nflags [] one_pair))
    × ((nvsizes : ℕ)
        → Same
            (value_length eats two_keys (1 ∷ 1 ∷ []) nvsizes [] one_entry)
            (MapRead.value_length eats two_keys (1 ∷ 1 ∷ []) nvsizes [] one_pair))
    × Same
        (erase eats two_keys (1 ∷ 1 ∷ []) [] one_entry)
        (MapWrite.erase eats two_keys (1 ∷ 1 ∷ []) [] one_pair)
    × ((vals : UserMem) (vsizes : List ℕ)
        → SamePut
            (put eats two_keys (1 ∷ 1 ∷ []) vals vsizes one_entry)
            (MapWrite.put eats two_keys (1 ∷ 1 ∷ []) vals vsizes one_pair))
    × ((packed : Bool) (vals_size : ℕ) (vsizes : List ℕ) (later : List Wake)
          (later' : List MapBackend.Wake) (window : UnorderedMapDatabase → UnorderedMapDatabase)
          (window' : MapDatabase → MapDatabase)
        → AllRelated later later'
        → ((v : UnorderedMapDatabase) (t : MapDatabase)
            → Related v t
            → Related (window v) (window' t))
        → SameGet
            (get eats packed two_keys (1 ∷ 1 ∷ []) vals_size vsizes [] window later one_entry)
            (MapRead.get eats packed two_keys
              (1 ∷ 1 ∷ [])
              vals_size
              vsizes
              []
              window'
              later'
              one_pair))
unordered_refines_map_example =
    unordered_refines_map eats two_keys (1 ∷ 1 ∷ []) [] [] one_entry one_pair tt
      (Related-emplaced no_entries no_pairs empty-Related (2 ∷ []) (7 ∷ []))
