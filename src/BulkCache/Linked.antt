-- ===== src/BulkCache/Linked.antt =====
-- The list and the map of a mode in lru_bulk_cache, which hold the same buffers.
use mochi_rkv.Prelude.{ℕ, ◌+◌, ◌≡◌, arith, ◌∷◌, none, some}
use mochi_rkv.BulkCache.{BulkMode, Buffer, find, emplace, erase_at, IsSorted}
use mochi_rkv.BulkCache.Lru.{Lane, erase_node}
use mochi_rkv.BulkCache.Order.{
  IsSorted-emplace, IsSorted-erase_at, find-emplace, find-erase_at, find-same, find_same,
  less_irrefl,
}
use mochi_rkv.BulkCache.Queue.{
  find_node, IsDescending, IsDescending-weaken, find_node-none, IsDescending-erase_node,
  find_node-erase_node,
}

-- The map leads from each buffer to its node, and back.
pub record IsLinked (mode : BulkMode) (next : ℕ) (l : Lane) : Type 0 where
  pub sorted : IsSorted l.entries
  pub descending : IsDescending next l.queue
  pub noted :
      (b d : Buffer) (id : ℕ)
      → find b l.entries ≡ some (d, id)
      → (d.mode ≡ mode) × (find_node id l.queue ≡ some d)
  pub listed :
      (id : ℕ) (b : Buffer) → find_node id l.queue ≡ some b → find b l.entries ≡ some (b, id)

pub IsLinked-weaken :
    (mode : BulkMode) (n : ℕ) (l : Lane) → IsLinked mode n l → IsLinked mode (n + 1) l
IsLinked-weaken mode n l i = record {
  sorted = i.sorted;
  descending = IsDescending-weaken n (n + 1) l.queue (omega arith) i.descending;
  noted = i.noted;
  listed = i.listed;
}

module _ (mode : BulkMode) (n : ℕ) (l : Lane) (i : IsLinked mode n l) (b : Buffer) where
  noted_without :
      (id : ℕ)
      → find b l.entries ≡ some (b, id)
      → (c d : Buffer) (k : ℕ) → find c (erase_at b l.entries) ≡ some (d, k)
      → (d.mode ≡ mode) × (find_node k (erase_node id l.queue) ≡ some d)
  noted_without id h c d k e = ground (
    arith,
    find-erase_at b c l.entries i.sorted,
    i.noted c d k,
    i.noted b b id h,
    find_node-erase_node n id k l.queue i.descending,
    find_same c d k l.entries,
  )

  listed_without :
      (id : ℕ)
      → find b l.entries ≡ some (b, id)
      → (k : ℕ) (c : Buffer) → find_node k (erase_node id l.queue) ≡ some c
      → find c (erase_at b l.entries) ≡ some (c, k)
  listed_without id h k c e = ground (
    arith,
    find-erase_at b c l.entries i.sorted,
    i.listed k c,
    find_node-erase_node n id k l.queue i.descending,
    find-same b c l.entries,
  )

  noted_with :
      b.mode ≡ mode
      → find b l.entries ≡ none
      → (c d : Buffer) (k : ℕ) → find c (emplace b n l.entries) ≡ some (d, k)
      → (d.mode ≡ mode) × (find_node k ((n, b) ∷ l.queue) ≡ some d)
  noted_with m h c d k e =
      ground (
        arith,
        find-emplace b c n l.entries,
        i.noted c d k,
        find_node-none n k l.queue i.descending,
      )

  listed_with :
      find b l.entries ≡ none
      → (k : ℕ) (c : Buffer) → find_node k ((n, b) ∷ l.queue) ≡ some c
      → find c (emplace b n l.entries) ≡ some (c, k)
  listed_with h k c e =
      ground
        (arith, find-emplace b c n l.entries, i.listed k c, find-same b c l.entries, less_irrefl b)

  pub IsLinked-without :
      (id : ℕ)
      → find b l.entries ≡ some (b, id)
      → IsLinked mode n (record { queue = erase_node id l.queue; entries = erase_at b l.entries })
  IsLinked-without id h = record {
    sorted = IsSorted-erase_at b l.entries i.sorted;
    descending = IsDescending-erase_node n id l.queue i.descending;
    noted = λ c d k e. noted_without id h c d k e;
    listed = λ k c e. listed_without id h k c e;
  }

  pub IsLinked-with :
      b.mode ≡ mode
      → find b l.entries ≡ none
      → IsLinked mode (n + 1) (record { queue = (n, b) ∷ l.queue; entries = emplace b n l.entries })
  IsLinked-with m h = record {
    sorted = IsSorted-emplace b n l.entries i.sorted;
    descending = (omega arith, i.descending);
    noted = λ c d k e. noted_with m h c d k e;
    listed = λ k c e. listed_with h k c e;
  }
