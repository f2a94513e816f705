-- ===== src/BulkCache/Sessions.antt =====
-- lru_bulk_cache_get and lru_bulk_cache_release keep the cache and its callers apart.
use mochi_rkv.Prelude.{
  ℕ, ◌+◌, ◌≤◌, ◌≡◌, ◌≢◌, refl, sym, ap, arith, Bool, true, false, List, [], ◌∷◌, ◌++◌, length, take,
  Option, none, some, Bool-cases, Option-cases, inl, inr, length-take, ◌∙◌, ◌==◌, if◌then◌else◌,
}
use mathlib.Core.Path.{subst}
use mathlib.Core.Option.{get_or}
use mochi_rkv.Common.{add_size, sub_size}
use mochi_rkv.BulkCache.{BulkMode, Buffer, find, lower_bound, emplace, erase_at}
use mochi_rkv.BulkCache.Lru.{
  Lane, LruCache, Got, nothing, got, broken, lane, erase_node, get, release,
}
use mochi_rkv.BulkCache.Order.{find-lower_bound}
use mochi_rkv.BulkCache.Queue.{length-erase_node}
use mochi_rkv.BulkCache.Linked.{IsLinked, IsLinked-without, IsLinked-with, IsLinked-weaken}
use mochi_rkv.BulkCache.Evicted.{buffers, freed_buffers, length-buffers, evict-Kept}
use mochi_rkv.BulkCache.Clients.{
  World, times, idle, Fresh, Picks, Step, get_step, refuse_step, release_step, IsSound, update,
  lane-update, lane_counted, lane_updated, lane_other, idle-update, capacity-update, get_update,
  times-Picks, length-Picks,
}
use mochi_rkv.BulkCache.Addresses.{
  times-append, times-erase_node, times_self, times_one, find_absent,
}

-- What release comes to: the lane of the buffer, which has it at the front, what is freed, and the
-- other lanes.
pub record Released (capacity : ℕ) (w : World) (b : Buffer) (rest : List Buffer) : Type 0 where
  pub freed : Option Buffer
  pub after : LruCache
  pub ended : release b w.cache ≡ some (freed, after)
  pub sound : IsSound capacity (record { cache = after; held = rest })
  pub newest :
      buffers (lane b.mode after).queue ≡ take capacity (b ∷ buffers (lane b.mode w.cache).queue)
  pub all :
      b ∷ buffers (lane b.mode w.cache).queue
      ≡ buffers (lane b.mode after).queue ++ freed_buffers freed
  pub others : (m : BulkMode) → m ≢ b.mode → lane m after ≡ lane m w.cache

module _ (capacity : ℕ) (w : World) (s : IsSound capacity w) where
  -- Where get takes an idle buffer.
  hit-IsSound :
      (mode : BulkMode) (b : Buffer) (id : ℕ)
      → find b (lane mode w.cache).entries ≡ some (b, id)
      → IsSound capacity (record {
        cache =
            update mode
              (record {
                queue = erase_node id (lane mode w.cache).queue;
                entries = erase_at b (lane mode w.cache).entries;
              })
              (add_size w.cache.num_in_use 1)
              w.cache.next_node
              w.cache;
        held = b ∷ w.held;
      })
  hit-IsSound mode b id h =
      let l = lane mode w.cache in
      let noted = ((s.linked mode).noted b b id h).1 in
      let l' : Lane = record { queue = erase_node id l.queue; entries = erase_at b l.entries } in
      let x = add_size w.cache.num_in_use 1 in
      record {
        linked =
            lane-update (λ m k. IsLinked m w.cache.next_node k) mode l' x w.cache.next_node w.cache
              (IsLinked-without mode w.cache.next_node l (s.linked mode) b id h) s.linked;
        bounded =
            lane-update (λ m k. length k.queue ≤ capacity) mode l' x w.cache.next_node w.cache
              (omega (arith, length-erase_node id l.queue, s.bounded mode)) s.bounded;
        once = λ a. omega (
          arith,
          s.once a,
          times-append a (b ∷ []) w.held,
          times-erase_node a id b l.queue noted,
          idle-update a mode l' x w.cache.next_node w.cache,
        );
        counted = omega (arith, s.counted);
        sized = capacity-update mode l' x w.cache.next_node w.cache ∙ s.sized;
      }

  made_once :
      (b : Buffer)
      → times b.address w.held + idle b.address w.cache ≡ 0
      → (a : ℕ) → times a (b ∷ w.held) + idle a w.cache ≤ 1
  made_once b h a = elim (times_one a b) [
    | inl (e, t) ↦ omega (
      arith,
      times-append a (b ∷ []) w.held,
      t,
      h,
      ap (λ (x : ℕ). times x w.held + idle x w.cache) e,
    )
    | inr t ↦ omega (arith, times-append a (b ∷ []) w.held, t, s.once a)
  ]

  -- Where get makes a buffer.
  made-IsSound :
      (b : Buffer)
      → times b.address w.held + idle b.address w.cache ≡ 0
      → IsSound capacity (record {
        cache = record w.cache { num_in_use = add_size w.cache.num_in_use 1 };
        held = b ∷ w.held;
      })
  made-IsSound b h = record {
    linked = λ m. rw (lane_counted m (add_size w.cache.num_in_use 1) w.cache) (s.linked m);
    bounded = λ m. rw (lane_counted m (add_size w.cache.num_in_use 1) w.cache) (s.bounded m);
    once = λ a. made_once b h a;
    counted = omega (arith, s.counted);
    sized = s.sized;
  }

  -- Where a caller hands a buffer back.
  pub Released-IsSound :
      (b : Buffer) (rest : List Buffer) → Picks b w.held rest → Released capacity w b rest
  unfolding release
  Released-IsSound b rest p =
      let c = w.cache in
      let l = lane b.mode c in
      let absent =
        find_absent capacity w b.mode b s
          (omega (arith, s.once b.address, times-Picks b.address p, times_self b)) in
      let l' : Lane = record {
        queue = (c.next_node, b) ∷ l.queue;
        entries = emplace b c.next_node l.entries;
      } in
      let k =
        evict-Kept b.mode (c.next_node + 1) c.capacity l'
          (IsLinked-with b.mode c.next_node l (s.linked b.mode) b refl absent)
          (omega (arith, s.bounded b.mode, s.sized)) in
      let x = sub_size c.num_in_use 1 in
      let y = c.next_node + 1 in
      record {
        freed = k.freed;
        after = update b.mode k.after x y c;
        ended = rw (k.ended, release) refl;
        sound = record {
          linked =
              lane-update (λ m k. IsLinked m y k) b.mode k.after x y c k.linked
                (λ m. IsLinked-weaken m c.next_node (lane m c) (s.linked m));
          bounded =
              lane-update (λ m k. length k.queue ≤ capacity) b.mode k.after x y c
                (omega (
                  arith,
                  length-buffers k.after.queue,
                  ap length k.newest,
                  length-take c.capacity (b ∷ buffers l.queue),
                  s.sized,
                ))
                s.bounded;
          once = λ a. omega (
            arith,
            s.once a,
            times-Picks a p,
            idle-update a b.mode k.after x y c,
            ap (times a) k.all,
            times-append a (b ∷ []) (buffers l.queue),
            times-append a (buffers k.after.queue) (freed_buffers k.freed),
          );
          counted = omega (arith, s.counted, length-Picks p);
          sized = capacity-update b.mode k.after x y c ∙ s.sized;
        };
        newest =
            ap (λ z. buffers z.queue) (lane_updated b.mode k.after x y c)
            ∙ k.newest
            ∙ ap (λ n. take n (b ∷ buffers l.queue)) s.sized;
        all = rw (lane_updated b.mode k.after x y c) k.all;
        others = λ m h. lane_other b.mode m k.after x y c h;
      }

pub SoundGot : ℕ → List Buffer → Got × LruCache → Type 0
SoundGot capacity held (got b, c) = IsSound capacity (record { cache = c; held = b ∷ held })
SoundGot capacity held (nothing, c) = IsSound capacity (record { cache = c; held = held })
SoundGot capacity held (broken, c) = ⊥

made-SoundGot :
    (grown : ℕ → ℕ) (capacity size : ℕ) (mode : BulkMode) (w : World) (memory : Option ℕ)
    (created : Bool)
    → IsSound capacity w
    → Fresh memory w
    → SoundGot capacity w.held (elim memory as (λ x. Got × LruCache) [
      | none ↦ (nothing, w.cache)
      | some address ↦
          if created
          then (
            got (record { size = grown size; mode = mode; address = address }),
            record w.cache { num_in_use = add_size w.cache.num_in_use 1 },
          )
          else (nothing, w.cache)
    ])
unfolding SoundGot
made-SoundGot grown capacity size mode w none created s f = s
made-SoundGot grown capacity size mode w (some a) true s f = made-IsSound capacity w s _ f
made-SoundGot grown capacity size mode w (some a) false s f = s

pub get-SoundGot :
    (grown : ℕ → ℕ) (capacity : ℕ) (w : World) (memory : Option ℕ) (created : Bool) (size : ℕ)
    (mode : BulkMode)
    → IsSound capacity w
    → Fresh memory w
    → SoundGot capacity w.held (get grown memory created size (some mode) w.cache)
unfolding get SoundGot
get-SoundGot grown capacity w memory created size mode s f =
    let l = lane mode w.cache in
    let bound : Buffer = record { size = size; mode = mode; address = 0 } in
    elim (Bool-cases (size == 0)) [
      | inl e ↦ rw (e, get) s
      | inr e ↦ elim (Option-cases (lower_bound bound l.entries)) [
        | inl missing ↦
            rw (e, get)
              (rw (missing, get) (made-SoundGot grown capacity size mode w memory created s f))
        | inr ((b, id), found) ↦
            let stored = find-lower_bound bound b id l.entries (s.linked mode).sorted found in
            let l' : Lane = record {
              queue = erase_node id l.queue;
              entries = erase_at b l.entries;
            } in
            rw (e, get)
              (rw (found, get)
                (subst (λ c. IsSound capacity (record { cache = c; held = b ∷ w.held }))
                  (sym (get_update mode l' (add_size w.cache.num_in_use 1) w.cache))
                  (hit-IsSound capacity w s mode b id stored.0)))
      ]
    ]

-- A call that get or release makes keeps the cache sound.
pub Step-IsSound :
    (grown : ℕ → ℕ) (capacity : ℕ) {w v : World}
    → Step grown w v
    → IsSound capacity w
    → IsSound capacity v
unfolding SoundGot
Step-IsSound grown capacity (get_step {w} memory created size mode b c f e) s =
    subst (SoundGot capacity w.held) e (get-SoundGot grown capacity w memory created size mode s f)
Step-IsSound grown capacity (refuse_step {w} memory created size mode c f e) s =
    subst (SoundGot capacity w.held) e (get-SoundGot grown capacity w memory created size mode s f)
Step-IsSound grown capacity (release_step {w} {rest} b freed c p e) s =
    let r = Released-IsSound capacity w s b rest p in
    subst (λ c. IsSound capacity (record { cache = c; held = rest }))
      (ap (λ (x : Option (Option Buffer × LruCache)). (get_or x (freed, c)).1) (sym r.ended ∙ e))
      r.sound
