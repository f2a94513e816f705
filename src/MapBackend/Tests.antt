-- ===== src/MapBackend/Tests.antt =====
-- Runs of the database of src/backends/map.cpp at small inputs, and its theorems at such inputs.
use mochi_rkv.Prelude.{◌≡◌, ◌≤◌, refl, true, false, List, [], ◌∷◌, some, arith, length}
use mochi_rkv.Common.{Bytes, Mode, mode_of, UserMem, returned, success, slice}
use mochi_rkv.Bytes.{default_mem_cmp}
use mochi_rkv.Bytes.Order.{default_mem_cmp-IsStrictTotal}
use mochi_rkv.OrderedMap.{find, emplace, IsSorted}
use mochi_rkv.Filters.{key_prefix_filter}
use mochi_rkv.MapBackend.{MapDatabase}
use mochi_rkv.MapBackend.Read.{get, get_packed}
use mochi_rkv.MapBackend.Write.{put, put_key, erase}
use mochi_rkv.MapBackend.Listing.{list_keys_loop}
use mochi_rkv.MapBackend.Migration.{MigrationHandle, recover, snapshot}
use mochi_rkv.MapBackend.Request.{sizes_of}
use mochi_rkv.MapBackend.Lookups.{keys_at}
use mochi_rkv.MapBackend.Rounds.{view, put_all, put_view, put_status, put_rounds}
use mochi_rkv.MapBackend.Writes.{put_pairs, put_one, put_many}
use mochi_rkv.MapBackend.Erasure.{erase_all, erase_rounds, erase_keys}
use mochi_rkv.MapBackend.Gets.{got_result, get_answers, get_packed-Inside, needed}
use mochi_rkv.MapBackend.Listed.{Inside, IsBounded, list_keys-Inside}
use mochi_rkv.MapBackend.Snapshot.{recover-snapshot}

abbrev empty_db : MapDatabase
empty_db = record { cmp = default_mem_cmp; db = []; has_migrated = false; watcher = [] }

abbrev two_keys : UserMem
two_keys = record { addr = 100; bytes = 2 ∷ 1 ∷ 1 ∷ [] }

abbrev two_values : UserMem
two_values = record { addr = 200; bytes = 7 ∷ 8 ∷ 9 ∷ [] }

abbrev plain : Mode
plain = mode_of 0

-- The modes of single flags.
abbrev with_wait : Mode
with_wait = mode_of 0x8

abbrev new_only : Mode
new_only = mode_of 0x10

abbrev eats : Mode
eats = mode_of 0x4

abbrev no_keys : Mode
no_keys = mode_of 0x80

abbrev key_a : Bytes
key_a = 1 ∷ 1 ∷ []

abbrev key_b : Bytes
key_b = 2 ∷ []

abbrev two : MapDatabase
two = record empty_db { db = (key_a, 9 ∷ []) ∷ (key_b, 7 ∷ 8 ∷ []) ∷ [] }

stored_db : (put plain two_keys (1 ∷ 2 ∷ []) two_values (2 ∷ 1 ∷ []) empty_db).1 ≡ two
unfolding put default_mem_cmp mode_of slice put_key find emplace
stored_db = refl

two-IsSorted : IsSorted default_mem_cmp two.db
unfolding default_mem_cmp
two-IsSorted = ((refl, tt), (tt, tt))

put_one_example :
    ((put_pairs new_only 1 2 ((key_b, 5 ∷ []) ∷ []) two).0
      ≡ returned (put_status new_only (view two key_b)))
    × ((j : Bytes)
        → view (put_pairs new_only 1 2 ((key_b, 5 ∷ []) ∷ []) two).1 j
          ≡ put_view new_only key_b (5 ∷ []) two j)
put_one_example =
    put_one new_only key_b (5 ∷ []) two 1 2 refl (omega arith) (omega arith)
      default_mem_cmp-IsStrictTotal

abbrev pairs : List (Bytes × Bytes)
pairs = (key_b, 5 ∷ []) ∷ (3 ∷ [], 6 ∷ []) ∷ []

put_many_example :
    (put_pairs new_only 1 2 pairs two ≡ (returned success, put_rounds new_only pairs two))
    × (view (put_rounds new_only pairs two) ≡ put_all default_mem_cmp new_only pairs (view two))
put_many_example =
    put_many new_only 1 2 pairs two refl (omega arith) (omega arith) default_mem_cmp-IsStrictTotal
      (omega arith)

abbrev asked : List Bytes
asked = key_b ∷ (4 ∷ []) ∷ []

erase_keys_example :
    (erase plain (keys_at 1 asked) (sizes_of asked) [] two
      ≡ (returned success, tt, erase_rounds asked two))
    × (view (erase_rounds asked two) ≡ erase_all default_mem_cmp asked (view two))
unfolding mode_of
erase_keys_example =
    erase_keys plain [] 1 asked two refl refl (omega arith) default_mem_cmp-IsStrictTotal
      two-IsSorted

get_answers_example :
    get plain true (keys_at 1 asked) (sizes_of asked) 10 (0 ∷ 0 ∷ []) [] (λ s. s) [] two
    ≡ record (got_result asked 10 two) { vals_size = some (needed asked two) }
unfolding mode_of find default_mem_cmp
get_answers_example =
    get_answers plain asked [] [] two 1 10 (0 ∷ 0 ∷ []) (λ s. s) refl refl (omega arith) refl
      (omega arith) (omega arith) refl

get_packed-Inside_example :
    Inside 1 (get_packed plain (keys_at 1 asked) 0 0 1 false (sizes_of asked) [] two).1.0
get_packed-Inside_example =
    get_packed-Inside plain (keys_at 1 asked) 1 0 0 1 false (sizes_of asked) [] two (omega arith)

prefix-IsBounded : IsBounded (key_prefix_filter plain (1 ∷ [])).key_copy
unfolding key_prefix_filter mode_of
prefix-IsBounded buf src = ground arith

list_keys-Inside_example :
    (length
        (list_keys_loop plain true
          (key_prefix_filter plain (1 ∷ []))
          1
          0
          false
          (0 ∷ 0 ∷ [])
          two.db).0
      ≡ 2)
    × Inside 1
        (list_keys_loop plain true
          (key_prefix_filter plain (1 ∷ []))
          1
          0
          false
          (0 ∷ 0 ∷ [])
          two.db).0
    × ((list_keys_loop plain true
          (key_prefix_filter plain (1 ∷ []))
          1
          0
          false
          (0 ∷ 0 ∷ [])
          two.db).1
        ≤ 1)
list_keys-Inside_example =
    list_keys-Inside plain (key_prefix_filter plain (1 ∷ [])) 1 prefix-IsBounded 0 false
      (0 ∷ 0 ∷ []) two.db (omega arith)

recover-snapshot_example :
    recover (success, default_mem_cmp) (some (snapshot two.db) ∷ []) ≡ some (success, some two)
unfolding snapshot
recover-snapshot_example =
    recover-snapshot two default_mem_cmp-IsStrictTotal two-IsSorted (omega arith)

abbrev handle : MigrationHandle
handle = record { file = snapshot two.db; cancelled = false }
