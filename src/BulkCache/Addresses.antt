-- ===== src/BulkCache/Addresses.antt =====
-- Where the buffers of lru_bulk_cache lie.
use mochi_rkv.Prelude.{
  ℕ, ◌+◌, ◌≤◌, ◌≡◌, ap, arith, false, List, [], ◌∷◌, ◌++◌, none, some, Bool-cases, Option-cases,
  inl, inr, ◌⊎◌, ==_iff, ◌==◌,
}
use mathlib.Core.Path.{}
use mathlib.Core.Option.{}
use mochi_rkv.BulkCache.{BulkMode, Buffer, less, find}
use mochi_rkv.BulkCache.Lru.{lane, erase_node}
use mochi_rkv.BulkCache.Order.{find_same}
use mochi_rkv.BulkCache.Queue.{find_node}
use mochi_rkv.BulkCache.Evicted.{buffers}
use mochi_rkv.BulkCache.Clients.{World, times, idle, IsSound, times-le-idle}

pub times-append : (a : ℕ) (l r : List Buffer) → times a (l ++ r) ≡ times a l + times a r
unfolding times
times-append a [] r = omega arith
times-append a (b ∷ l) r = omega (arith, times-append a l r)

pub times-erase_node :
    (a id : ℕ) (b : Buffer) (q : List (ℕ × Buffer))
    → find_node id q ≡ some b
    → times a (buffers q) ≡ times a (b ∷ []) + times a (buffers (erase_node id q))
unfolding times erase_node
times-erase_node a id b [] h = ground arith
times-erase_node a id b ((j, c) ∷ q) h = ground (arith, times-erase_node a id b q)

times-find_node :
    (id : ℕ) (b : Buffer) (q : List (ℕ × Buffer))
    → find_node id q ≡ some b
    → 1 ≤ times b.address (buffers q)
unfolding times
times-find_node id b [] h = ground arith
times-find_node id b ((j, c) ∷ q) h = ground (arith, times-find_node id b q)

pub times_self : (b : Buffer) → times b.address (b ∷ []) ≡ 1
unfolding times
times_self b = ground arith

pub times_one :
    (a : ℕ) (b : Buffer) → ((b.address ≡ a) × (times a (b ∷ []) ≡ 1)) ⊎ (times a (b ∷ []) ≡ 0)
unfolding times
times_one a b = elim (Bool-cases (b.address == a)) [
  | inl e ↦ inl ((==_iff _ _).0 e, ground arith)
  | inr e ↦ inr (ground arith)
]

same_address : (b d : Buffer) → less b d ≡ false → less d b ≡ false → d.address ≡ b.address
unfolding less
same_address b d h k = ground arith

-- A buffer at an address where no idle buffer lies is not in the map.
pub find_absent :
    (capacity : ℕ) (w : World) (m : BulkMode) (b : Buffer)
    → IsSound capacity w
    → idle b.address w.cache ≡ 0
    → find b (lane m w.cache).entries ≡ none
find_absent capacity w m b s h = elim (Option-cases (find b (lane m w.cache).entries)) [
  | inl e ↦ e
  | inr ((d, id), e) ↦
      let same = find_same b d id (lane m w.cache).entries e in
      let noted = ((s.linked m).noted b d id e).1 in
      absurd (
        omega (
          arith,
          ap (λ (a : ℕ). times a (buffers (lane m w.cache).queue)) (same_address b d same.0 same.1),
          times-find_node id d (lane m w.cache).queue noted,
          times-le-idle b.address m w.cache,
        ))
]
