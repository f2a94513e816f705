-- ===== src/BulkCache/Clients.antt =====
-- The calls of get and release of lru_bulk_cache one after the other: what its callers hold, and
-- which buffers are idle.
use mochi_rkv.Prelude.{
  ℕ, suc, ◌+◌, ◌%◌, ◌≤◌, ◌≡◌, ◌≢◌, refl, arith, Bool, List, [], ◌∷◌, length, Option, none, some,
  ◌==◌, if◌then◌else◌,
}
use mochi_rkv.Common.{size_mod}
use mochi_rkv.BulkCache.{BulkMode, read_only, write_only, read_write, Buffer}
use mochi_rkv.BulkCache.Lru.{Lane, LruCache, nothing, got, init, lane, set_lane, get, release}
use mochi_rkv.BulkCache.Linked.{IsLinked}
use mochi_rkv.BulkCache.Evicted.{buffers}

-- The cache, and the buffers that get returned and that were not released yet.
pub record World : Type 0 where
  pub cache : LruCache
  pub held : List Buffer

-- How many buffers of a list lie at an address.
unfoldable pub times : ℕ → List Buffer → ℕ
times a [] = 0
times a (b ∷ l) = (if b.address == a then 1 else 0) + times a l

abbrev pub idle : ℕ → LruCache → ℕ
idle a c =
    times a (buffers c.readonly.queue)
    + times a (buffers c.writeonly.queue)
    + times a (buffers c.readwrite.queue)

-- new returns memory where no other buffer lies.
abbrev pub Fresh : Option ℕ → World → Type 0
Fresh none w = Unit {0}
Fresh (some a) w = times a w.held + idle a w.cache ≡ 0

-- A buffer of a list, and the others.
pub data Picks : Buffer → List Buffer → List Buffer → Type 0 where
  here : {b : Buffer} {l : List Buffer} → Picks b (b ∷ l) l
  there : {b d : Buffer} {l r : List Buffer} → Picks b l r → Picks b (d ∷ l) (d ∷ r)

module _ (grown : ℕ → ℕ) where
  pub data Step : World → World → Type 0 where
    get_step :
        {w : World} (memory : Option ℕ) (created : Bool) (size : ℕ) (mode : BulkMode) (b : Buffer)
        (c : LruCache)
        → Fresh memory w
        → get grown memory created size (some mode) w.cache ≡ (got b, c)
        → Step w (record { cache = c; held = b ∷ w.held })
    refuse_step :
        {w : World} (memory : Option ℕ) (created : Bool) (size : ℕ) (mode : BulkMode) (c : LruCache)
        → Fresh memory w
        → get grown memory created size (some mode) w.cache ≡ (nothing, c)
        → Step w (record { cache = c; held = w.held })
    release_step :
        {w : World} {rest : List Buffer} (b : Buffer) (freed : Option Buffer) (c : LruCache)
        → Picks b w.held rest
        → release b w.cache ≡ some (freed, c)
        → Step w (record { cache = c; held = rest })

  -- What comes of a new cache with that capacity.
  pub data Reach (capacity : ℕ) : World → Type 0 where
    start : Reach capacity (record { cache = init capacity; held = [] })
    next : {w v : World} → Reach capacity w → Step w v → Reach capacity v

-- Each list and its map hold the same buffers, in order and not too many; no two buffers lie at one
-- address, and num_in_use is the number of those that are held.
pub record IsSound (capacity : ℕ) (w : World) : Type 0 where
  pub linked : (m : BulkMode) → IsLinked m w.cache.next_node (lane m w.cache)
  pub bounded : (m : BulkMode) → length (lane m w.cache).queue ≤ capacity
  pub once : (a : ℕ) → times a w.held + idle a w.cache ≤ 1
  pub counted : w.cache.num_in_use ≡ length w.held % size_mod
  pub sized : w.cache.capacity ≡ capacity

-- The cache with a new lane and new numbers.
abbrev pub update : BulkMode → Lane → ℕ → ℕ → LruCache → LruCache
update k l x y c = record (set_lane k l c) { num_in_use = x; next_node = y }

-- What holds of a new lane, and of the others before, holds of all lanes.
pub lane-update :
    (P : BulkMode → Lane → Type 0) (k : BulkMode) (l : Lane) (x y : ℕ) (c : LruCache)
    → P k l
    → ((m : BulkMode) → P m (lane m c))
    → (m : BulkMode) → P m (lane m (update k l x y c))
lane-update P read_only l x y c p h read_only = p
lane-update P read_only l x y c p h write_only = h write_only
lane-update P read_only l x y c p h read_write = h read_write
lane-update P write_only l x y c p h read_only = h read_only
lane-update P write_only l x y c p h write_only = p
lane-update P write_only l x y c p h read_write = h read_write
lane-update P read_write l x y c p h read_only = h read_only
lane-update P read_write l x y c p h write_only = h write_only
lane-update P read_write l x y c p h read_write = p

pub lane_counted :
    (m : BulkMode) (x : ℕ) (c : LruCache) → lane m (record c { num_in_use = x }) ≡ lane m c
lane_counted read_only x c = refl
lane_counted write_only x c = refl
lane_counted read_write x c = refl

pub lane_updated :
    (k : BulkMode) (l : Lane) (x y : ℕ) (c : LruCache) → lane k (update k l x y c) ≡ l
lane_updated read_only l x y c = refl
lane_updated write_only l x y c = refl
lane_updated read_write l x y c = refl

pub lane_other :
    (k m : BulkMode) (l : Lane) (x y : ℕ) (c : LruCache)
    → m ≢ k
    → lane m (update k l x y c) ≡ lane m c
lane_other read_only read_only l x y c h = absurd (h refl)
lane_other read_only write_only l x y c h = refl
lane_other read_only read_write l x y c h = refl
lane_other write_only read_only l x y c h = refl
lane_other write_only write_only l x y c h = absurd (h refl)
lane_other write_only read_write l x y c h = refl
lane_other read_write read_only l x y c h = refl
lane_other read_write write_only l x y c h = refl
lane_other read_write read_write l x y c h = absurd (h refl)

pub idle-update :
    (a : ℕ) (k : BulkMode) (l : Lane) (x y : ℕ) (c : LruCache)
    → idle a (update k l x y c) + times a (buffers (lane k c).queue)
      ≡ idle a c + times a (buffers l.queue)
idle-update a read_only l x y c = omega arith
idle-update a write_only l x y c = omega arith
idle-update a read_write l x y c = omega arith

pub times-le-idle :
    (a : ℕ) (k : BulkMode) (c : LruCache) → times a (buffers (lane k c).queue) ≤ idle a c
times-le-idle a read_only c = omega arith
times-le-idle a write_only c = omega arith
times-le-idle a read_write c = omega arith

pub capacity-update :
    (k : BulkMode) (l : Lane) (x y : ℕ) (c : LruCache) → (update k l x y c).capacity ≡ c.capacity
capacity-update read_only l x y c = refl
capacity-update write_only l x y c = refl
capacity-update read_write l x y c = refl

pub get_update :
    (k : BulkMode) (l : Lane) (x : ℕ) (c : LruCache)
    → ◌≡◌ {A = LruCache} (record (set_lane k l c) { num_in_use = x }) (update k l x c.next_node c)
get_update read_only l x c = refl
get_update write_only l x c = refl
get_update read_write l x c = refl

pub times-Picks :
    (a : ℕ) {b : Buffer} {l r : List Buffer}
    → Picks b l r
    → times a l ≡ times a (b ∷ []) + times a r
unfolding times
times-Picks a here = omega arith
times-Picks a (there p) = omega (arith, times-Picks a p)

pub length-Picks : {b : Buffer} {l r : List Buffer} → Picks b l r → length l ≡ suc (length r)
length-Picks here = refl
length-Picks (there p) = omega (arith, length-Picks p)
