-- ===== src/BulkCache/Reached.antt =====
-- The states of lru_bulk_cache that calls lead to, and what get and release do in them.
use mochi_rkv.Prelude.{
  ℕ, ◌+◌, ◌≤◌, ◌≡◌, ◌≢◌, refl, ap, arith, Bool, false, List, [], ◌∷◌, Option, some, Option-cases,
  inl, inr, ◌==◌,
}
use mathlib.Core.Path.{}
use mathlib.Core.Option.{}
use mochi_rkv.Common.{add_size}
use mochi_rkv.BulkCache.{
  BulkMode, read_only, write_only, read_write, Buffer, less, find, lower_bound, erase_at,
}
use mochi_rkv.BulkCache.Lru.{Lane, LruCache, got, init, empty_lane, lane, erase_node, get}
use mochi_rkv.BulkCache.Order.{find-lower_bound}
use mochi_rkv.BulkCache.Queue.{find_node}
use mochi_rkv.BulkCache.Linked.{IsLinked}
use mochi_rkv.BulkCache.Evicted.{buffers}
use mochi_rkv.BulkCache.Clients.{
  World, times, Picks, Reach, start, next, IsSound, update, lane_updated, lane_other, get_update,
}
use mochi_rkv.BulkCache.Addresses.{times-erase_node}
use mochi_rkv.BulkCache.Order.{lower_bound_least, lower_bound-none}
use mochi_rkv.BulkCache.Sessions.{Released, Step-IsSound, Released-IsSound}

lane-init : (m : BulkMode) (capacity : ℕ) → lane m (init capacity) ≡ empty_lane
lane-init read_only capacity = refl
lane-init write_only capacity = refl
lane-init read_write capacity = refl

empty-IsLinked : (m : BulkMode) → IsLinked m 0 empty_lane
unfolding find
empty-IsLinked m = record {
  sorted = tt;
  descending = tt;
  noted = λ b d id e. absurd (ground arith);
  listed = λ id b e. absurd (ground arith);
}

init-IsSound : (capacity : ℕ) → IsSound capacity (record { cache = init capacity; held = [] })
unfolding times
init-IsSound capacity = record {
  linked = λ m. rw (lane-init m capacity) (empty-IsLinked m);
  bounded = λ m. rw (lane-init m capacity) (omega arith);
  once = λ a. omega arith;
  counted = refl;
  sized = refl;
}

-- In every state that calls of get and release lead to, where new returns memory that is not in
-- use: the list and the map of each mode hold the same buffers of that mode, at most `capacity` many,
-- the map in order; no two buffers that are idle or held by callers lie at the same address; and
-- num_in_use is the number of the buffers that are held, modulo 2 ^ 64.
pub Reach-IsSound :
    (grown : ℕ → ℕ) (capacity : ℕ) (w : World) → Reach grown capacity w → IsSound capacity w
Reach-IsSound grown capacity w start = init-IsSound capacity
Reach-IsSound grown capacity w (next r st) =
    Step-IsSound grown capacity st (Reach-IsSound grown capacity _ r)

-- In a state that calls lead to, a caller hands a buffer back that it holds: release ends, and the list
-- of that mode then has the buffer at the front and the newest of the others behind it, up to the
-- capacity; what no longer has room is freed, and no other buffer.
pub release_refines :
    (grown : ℕ → ℕ) (capacity : ℕ) (w : World) (b : Buffer) (rest : List Buffer)
    → Reach grown capacity w
    → Picks b w.held rest
    → Released capacity w b rest
release_refines grown capacity w b rest r p =
    Released-IsSound capacity w (Reach-IsSound grown capacity w r) b rest p

below_bound :
    (size : ℕ) (mode : BulkMode) (d : Buffer)
    → (less d (record { size = size; mode = mode; address = 0 }) ≡ false → size ≤ d.size)
      × (size ≤ d.size → less d (record { size = size; mode = mode; address = 0 }) ≡ false)
unfolding less
below_bound size mode d = (λ h. ground arith, λ h. ground arith)

less_size : (d b : Buffer) → less d b ≡ false → b.size ≤ d.size
unfolding less
less_size d b h = ground arith

-- In a state that calls lead to, where an idle buffer of the mode is large enough for a size that is not
-- 0: get takes an idle buffer of that mode that is large enough, and not larger than that one; it takes
-- no new memory, and the list of the mode no longer has the buffer, while the other lists are as they
-- were.
pub get_best_fit :
    (grown : ℕ → ℕ) (capacity : ℕ) (w : World) (memory : Option ℕ) (created : Bool) (size : ℕ)
    (mode : BulkMode) (d : Buffer) (id : ℕ)
    → Reach grown capacity w
    → size ≢ 0
    → find_node id (lane mode w.cache).queue ≡ some d
    → size ≤ d.size
    → (b : Buffer) × ((c : LruCache) × (get grown memory created size (some mode) w.cache
          ≡ (got b, c))
        × (b.mode ≡ mode)
        × (size ≤ b.size)
        × (b.size ≤ d.size)
        × ((a : ℕ)
            → times a (buffers (lane mode w.cache).queue)
              ≡ times a (b ∷ []) + times a (buffers (lane mode c).queue))
        × ((m : BulkMode) → m ≢ mode → lane m c ≡ lane m w.cache))
unfolding get
get_best_fit grown capacity w memory created size mode d id r z h fits =
    let s = Reach-IsSound grown capacity w r in
    let l = lane mode w.cache in
    let bound : Buffer = record { size = size; mode = mode; address = 0 } in
    let e : (size == 0) ≡ false = ground arith in
    let there' = (s.linked mode).listed id d h in
    elim (Option-cases (lower_bound bound l.entries)) [
      | inl missing ↦ absurd (
          ground (
            arith,
            lower_bound-none bound d d id l.entries missing there',
            (below_bound size mode d).1 fits,
          ))
      | inr ((b, k), found) ↦
          let stored = find-lower_bound bound b k l.entries (s.linked mode).sorted found in
          let noted = (s.linked mode).noted b b k stored.0 in
          let l' : Lane = record { queue = erase_node k l.queue; entries = erase_at b l.entries } in
          let x = add_size w.cache.num_in_use 1 in
          (
            b,
            (
              update mode l' x w.cache.next_node w.cache,
              rw (e, get) (rw (found, get) (ap (λ c. (got b, c)) (get_update mode l' x w.cache))),
              noted.0,
              (below_bound size mode b).0 stored.1,
              less_size d b (
                  lower_bound_least bound d b d k id l.entries (s.linked mode).sorted found there'
                    ((below_bound size mode d).1 fits)),
              λ a.
                  rw (lane_updated mode l' x w.cache.next_node w.cache)
                    (times-erase_node a k b l.queue noted.1),
              λ m. lane_other mode m l' x w.cache.next_node w.cache,
            ),
          )
    ]
