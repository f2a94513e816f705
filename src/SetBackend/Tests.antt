-- ===== src/SetBackend/Tests.antt =====
-- Runs of the database of src/backends/set.cpp at small inputs, and its theorems at such inputs.
use mochi_rkv.Prelude.{
  ◌≡◌, ◌≢◌, refl, true, false, List, [], ◌∷◌, arith, length, ℕ, Bool, ◌++◌, ◌<◌,
}
use mochi_rkv.Common.{Bytes, Mode, mode_of, UserMem, returned, success, fault, slice, size_mod}
use mochi_rkv.Bytes.{default_mem_cmp}
use mochi_rkv.OrderedSet.{contains}
use mochi_rkv.Filters.{KeyValueFilter}
use mochi_rkv.Watcher.{Waiting, Watcher, pending, key_present, equal_range}
use mochi_rkv.MapBackend
use mochi_rkv.MapBackend.Lookups.{keys_at}
use mochi_rkv.MapBackend.Read as MapRead
use mochi_rkv.MapBackend.Write as MapWrite
use mochi_rkv.MapBackend.Listing as MapListing
use mochi_rkv.SetBackend.{SetDatabase, Wake, as_map, count, look, after_look}
use mochi_rkv.SetBackend.Read.{exists, value_length}
use mochi_rkv.SetBackend.Write.{erase}
use mochi_rkv.SetBackend.Listing.{list_keys, list_key_values}
use mochi_rkv.SetBackend.Embedding.{map_wakes, on_map}
use mochi_rkv.SetBackend.Listed.{without_values}
use mochi_rkv.SetBackend.Puts.{empty_at, put_keys, put-as_map}
use mochi_rkv.SetBackend.Notified.{put_key_of, notify_misses}
use mochi_rkv.SetBackend.Refined.{set_answers_as_map}

abbrev two : SetDatabase
two = record {
  cmp = default_mem_cmp;
  db = (1 ∷ 1 ∷ []) ∷ (2 ∷ []) ∷ [];
  has_migrated = false;
  watcher = [];
}

-- A thread waits for the key 5, and then it is there.
abbrev waits : Mode
waits = mode_of 0x8

abbrev woken : List Wake
woken = (key_present, record two { db = (5 ∷ []) ∷ [] }) ∷ []

abbrev plain : Mode
plain = mode_of 0

abbrev asked : UserMem
asked = record { addr = 100; bytes = 5 ∷ [] }

finds_after_wait :
    exists waits asked (1 ∷ []) 1 woken two
    ≡ (returned success, true ∷ [], record two { db = (5 ∷ []) ∷ [] })
unfolding exists mode_of default_mem_cmp slice contains after_look look
finds_after_wait = refl

set_answers_as_map_example :
    ((nflags : ℕ)
      → MapRead.exists waits asked (1 ∷ []) nflags (map_wakes woken) (as_map two)
        ≡ on_map (exists waits asked (1 ∷ []) nflags woken two))
    × ((nvsizes : ℕ)
        → MapRead.value_length waits asked (1 ∷ []) nvsizes (map_wakes woken) (as_map two)
          ≡ on_map (value_length waits asked (1 ∷ []) nvsizes woken two))
    × (MapWrite.erase waits asked (1 ∷ []) (map_wakes woken) (as_map two)
        ≡ on_map (erase waits asked (1 ∷ []) woken two))
    × (MapBackend.count (as_map two) ≡ count two)
    × ((packed : Bool) (from_key : Bytes) (filter : KeyValueFilter) (buf_size : ℕ) (sizes : List ℕ)
        → MapListing.list_keys waits packed from_key filter buf_size sizes (as_map two)
          ≡ list_keys waits packed from_key filter buf_size sizes two)
    × ((packed : Bool) (from_key : Bytes) (filter : KeyValueFilter) (kcap : ℕ) (sizes : List ℕ)
          (vcap : ℕ) (vsizes : List ℕ)
        → without_values (
            MapListing.list_key_values waits packed from_key filter kcap sizes vcap vsizes
              (as_map two))
          ≡ list_key_values waits packed from_key filter kcap sizes vcap vsizes two)
set_answers_as_map_example = set_answers_as_map waits asked (1 ∷ []) woken two

put-as_map_example :
    MapWrite.put plain
      (keys_at 1 ((2 ∷ []) ∷ (3 ∷ []) ∷ []))
      (1 ∷ 1 ∷ [])
      (empty_at 2)
      (0 ∷ 0 ∷ [])
      (as_map two)
    ≡ (
      (put_keys plain 1 2 ((2 ∷ []) ∷ (3 ∷ []) ∷ []) two).0,
      as_map (put_keys plain 1 2 ((2 ∷ []) ∷ (3 ∷ []) ∷ []) two).1,
    )
unfolding mode_of
put-as_map_example =
    put-as_map plain 1 2 two refl refl refl ((2 ∷ []) ∷ (3 ∷ []) ∷ []) (omega arith)

-- A thread that waits for the key 7.
abbrev watched : SetDatabase
watched = record two { watcher = record { addr = 9; key = 7 ∷ []; status = pending } ∷ [] }

notify_misses_example :
    ((other rest : Bytes)
      → length ((7 ∷ []) ++ (other ++ rest)) < size_mod
      → length other ≡ 1
      → 7 ∷ [] ≢ other
      → ((put_key_of waits 1 2 (7 ∷ []) ((7 ∷ []) ++ (other ++ rest)) watched).0 ≡ returned success)
        × (equal_range
              (7 ∷ [])
              (put_key_of waits 1 2 (7 ∷ []) ((7 ∷ []) ++ (other ++ rest)) watched).1.watcher
            ≡ equal_range (7 ∷ []) watched.watcher))
    × ((e : Waiting) (w : Watcher)
        → 1 < size_mod
        → watched.watcher ≡ e ∷ w
        → (put_key_of waits 1 2 (7 ∷ []) (7 ∷ []) watched).0 ≡ fault)
unfolding mode_of
notify_misses_example = notify_misses waits 1 2 (7 ∷ []) watched refl refl refl refl (omega arith)
