-- ===== src/BulkCache/Tests.antt =====
-- lru_bulk_cache at small inputs.
use mochi_rkv.Prelude.{ℕ, ◌≡◌, ◌≢◌, ◌≤◌, ◌+◌, refl, arith, true, [], ◌∷◌, none, some}
use mochi_rkv.BulkCache.{BulkMode, read_only, Buffer, find, less, lower_bound, emplace, erase_at}
use mochi_rkv.BulkCache.Lru.{LruCache, got, init, lane, get, release, evict, back, pop_back}
use mochi_rkv.BulkCache.Clients.{
  World, times, here, get_step, release_step, Reach, start, next, IsSound,
}
use mochi_rkv.BulkCache.Evicted.{buffers}
use mochi_rkv.BulkCache.Sessions.{Released}
use mochi_rkv.BulkCache.Reached.{Reach-IsSound, release_refines, get_best_fit}

abbrev same : ℕ → ℕ
same n = n

-- Two buffers of 8 and 16 bytes.
abbrev small : Buffer
small = record { size = 8; mode = read_only; address = 100 }

abbrev large : Buffer
large = record { size = 16; mode = read_only; address = 200 }

-- A cache for one buffer, while two are held.
abbrev two_held : World
two_held = record { cache = record (init 1) { num_in_use = 2 }; held = large ∷ small ∷ [] }

two_held-Reach : Reach same 1 two_held
unfolding get lower_bound times
two_held-Reach =
    next (next start (get_step (some 100) true 8 read_only small _ refl refl))
      (get_step (some 200) true 16 read_only large _ refl refl)

-- The larger one is handed back.
abbrev one_idle : World
one_idle = record {
  cache = record (init 1) {
    num_in_use = 1;
    readonly = record { queue = (0, large) ∷ []; entries = (large, 0) ∷ [] };
    next_node = 1;
  };
  held = small ∷ [];
}

one_idle-Reach : Reach same 1 one_idle
unfolding release emplace evict
one_idle-Reach = next two_held-Reach (release_step large none _ here refl)

Reach-IsSound_example : IsSound 1 one_idle
Reach-IsSound_example = Reach-IsSound same 1 one_idle one_idle-Reach

-- The capacity is reached, so the older buffer goes.
release_refines_example : Released 1 one_idle small []
release_refines_example = release_refines same 1 one_idle small [] one_idle-Reach here

evicts_oldest :
    release small one_idle.cache
    ≡ some (
      some large,
      record (init 1) {
        readonly = record { queue = (1, small) ∷ []; entries = (small, 1) ∷ [] };
        next_node = 2;
      },
    )
unfolding release emplace evict less back pop_back find erase_at
evicts_oldest = refl

get_best_fit_example :
    (b : Buffer) × ((c : LruCache) × (get same none true 10 (some read_only) one_idle.cache
        ≡ (got b, c))
      × (b.mode ≡ read_only)
      × (10 ≤ b.size)
      × (b.size ≤ 16)
      × ((a : ℕ)
          → times a (large ∷ []) ≡ times a (b ∷ []) + times a (buffers (lane read_only c).queue))
      × ((m : BulkMode) → m ≢ read_only → lane m c ≡ lane m one_idle.cache))
get_best_fit_example =
    get_best_fit same 1 one_idle none true 10 read_only large 0 one_idle-Reach (omega arith) refl
      (omega arith)
