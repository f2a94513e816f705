-- ===== src/BulkCache/Lru.antt =====
-- src/buffer/lru_bulk_cache.cpp. A node of a std::list has an identity, which an iterator shows: nodes
-- are numbered as they are made.
use mochi_rkv.Prelude.{
  ℕ, ◌+◌, Bool, ltb, ◌==◌, List, [], ◌∷◌, ◌++◌, length, Option, none, some, if◌then◌else◌,
}
use mochi_rkv.Common.{add_size, sub_size}
use mochi_rkv.BulkCache.{
  BulkMode, read_only, write_only, read_write, Buffer, Entries, find, lower_bound, stored, emplace,
  erase_at,
}

-- list_t, with the node of each buffer, and map_t, whose values are the nodes.
pub record Lane : Type 0 where
  pub queue : List (ℕ × Buffer)
  pub entries : Entries ℕ

pub record LruCache : Type 0 where
  pub num_in_use : ℕ
  pub readonly : Lane
  pub writeonly : Lane
  pub readwrite : Lane
  pub next_node : ℕ
  pub capacity : ℕ

abbrev pub empty_lane : Lane
empty_lane = record { queue = []; entries = [] }

-- lru_bulk_cache_init with the capacity of the configuration.
abbrev pub init : ℕ → LruCache
init capacity = record {
  num_in_use = 0;
  readonly = empty_lane;
  writeonly = empty_lane;
  readwrite = empty_lane;
  next_node = 0;
  capacity = capacity;
}

-- The list and the map of a mode.
abbrev pub lane : BulkMode → LruCache → Lane
lane read_only c = c.readonly
lane write_only c = c.writeonly
lane read_write c = c.readwrite

abbrev pub set_lane : BulkMode → Lane → LruCache → LruCache
set_lane read_only l c = record c { readonly = l }
set_lane write_only l c = record c { writeonly = l }
set_lane read_write l c = record c { readwrite = l }

-- list.erase(node)
unfoldable pub erase_node : ℕ → List (ℕ × Buffer) → List (ℕ × Buffer)
erase_node id [] = []
erase_node id ((j, b) ∷ q) = let rest = erase_node id q in if j == id then q else (j, b) ∷ rest

-- list.back(), and list.pop_back().
unfoldable pub back : List (ℕ × Buffer) → Option (ℕ × Buffer)
back [] = none
back (x ∷ []) = some x
back (x ∷ y ∷ q) = back (y ∷ q)

unfoldable pub pop_back : List (ℕ × Buffer) → List (ℕ × Buffer)
pop_back [] = []
pop_back (x ∷ []) = []
pop_back (x ∷ y ∷ q) = x ∷ pop_back (y ∷ q)

-- What lru_bulk_cache_get comes to: a null pointer, a buffer, or the use of a null pointer.
pub data Got : Type 0 where
  nothing : Got
  got : Buffer → Got
  broken : Got

-- `grown` is size * (1.0 + margin) as a size_t, `memory` the address that new returns, none for the
-- null pointer, and `created` whether margo_bulk_create succeeds. A mode that is none of the three is
-- none.
unfoldable pub get : (ℕ → ℕ) → Option ℕ → Bool → ℕ → Option BulkMode → LruCache → Got × LruCache
unfolding lower_bound erase_at erase_node
get grown memory created size none c = if size == 0 then (nothing, c) else (broken, c)
get grown memory created size (some mode) c =
    let l = lane mode c in
    if size == 0
    then (nothing, c)
    else elim (lower_bound (record { size = size; mode = mode; address = 0 }) l.entries) [
      | some (b, node) ↦ (
        got b,
        record (set_lane mode
            (record { queue = erase_node node l.queue; entries = erase_at b l.entries }) c) {
              num_in_use = add_size c.num_in_use 1;
            },
      )
      | none ↦ elim memory [
        | none ↦ (nothing, c)
        | some address ↦
            if created
            then (
              got (record { size = grown size; mode = mode; address = address }),
              record c { num_in_use = add_size c.num_in_use 1 },
            )
            else (nothing, c)
      ]
    ]

-- The end of release: the oldest buffer goes where there are too many. none is a list.back() or a
-- map.find that finds nothing, which the source uses all the same.
unfoldable pub evict : ℕ → Lane → Option (Option Buffer × Lane)
unfolding back pop_back find erase_at
evict capacity l =
    if ltb capacity (length l.queue)
    then elim (back l.queue) [
      | none ↦ none
      | some (node, oldest) ↦ elim (find oldest l.entries) [
        | none ↦ none
        | some (b, x) ↦
            some (some oldest, record { queue = pop_back l.queue; entries = erase_at b l.entries })
      ]
    ]
    else some (none, l)

-- The buffer that a release frees, if any, and the cache.
unfoldable pub release : Buffer → LruCache → Option (Option Buffer × LruCache)
unfolding emplace evict
release b c =
    let l = lane b.mode c in
    elim (evict c.capacity
      (record { queue = (c.next_node, b) ∷ l.queue; entries = emplace b c.next_node l.entries })) [
        | none ↦ none
        | some (freed, l') ↦ some (
          freed,
          record (set_lane b.mode l' c) {
            num_in_use = sub_size c.num_in_use 1;
            next_node = c.next_node + 1;
          },
        )
      ]

-- lru_bulk_cache_finalize: the buffers that it frees, in turn.
unfoldable pub finalize : LruCache → List Buffer
unfolding stored
finalize c = stored c.readonly.entries ++ (stored c.writeonly.entries ++ stored c.readwrite.entries)
