-- ===== src/BulkCache.antt =====
-- src/buffer: the caches of buffers for bulk transfers, over the ordered sets and maps of buffers that
-- they share. New memory, and whether margo_bulk_create succeeds, are arguments.
pub mod Lru
pub mod KeepAll
pub mod Linked
pub mod Evicted
pub mod Clients
pub mod Addresses
pub mod Sessions
pub mod Reached
pub mod Tests
pub mod Order
pub mod Queue
use mochi_rkv.Prelude.{
  ℕ, Bool, true, ltb, ◌==◌, ◌≡◌, List, [], ◌∷◌, Option, none, some, if◌then◌else◌,
}

-- HG_BULK_READ_ONLY, HG_BULK_WRITE_ONLY and HG_BULK_READWRITE.
pub data BulkMode : Type 0 where
  read_only write_only read_write : BulkMode

-- yk_buffer; `data` is a keyword, so the pointer is `address`.
pub record Buffer : Type 0 where
  pub size : ℕ
  pub mode : BulkMode
  pub address : ℕ

-- bulk_less
unfoldable pub less : Buffer → Buffer → Bool
less a b = if a.size == b.size then ltb a.address b.address else ltb a.size b.size

-- What std::map and std::set over bulk_less do, over the entries in order; those of a set hold nothing
-- beside the buffer.
abbrev pub Entries : Type 0 → Type 0
Entries A = List (Buffer × A)

module _ {A : Type 0} where
  -- The entry that is equivalent to a buffer.
  unfoldable pub find : Buffer → Entries A → Option (Buffer × A)
  find b [] = none
  find b ((c, a) ∷ m) =
      let rest = find b m in if less c b then rest else if less b c then none else some (c, a)

  -- *m.lower_bound(b)
  unfoldable pub lower_bound : Buffer → Entries A → Option (Buffer × A)
  lower_bound b [] = none
  lower_bound b ((c, a) ∷ m) = let rest = lower_bound b m in if less c b then rest else some (c, a)

  -- m.emplace(b, a): an entry that is there stays.
  unfoldable pub emplace : Buffer → A → Entries A → Entries A
  emplace b a [] = (b, a) ∷ []
  emplace b a ((c, x) ∷ m) =
      let rest = emplace b a m in
      if less c b then (c, x) ∷ rest else if less b c then (b, a) ∷ (c, x) ∷ m else (c, x) ∷ m

  -- m.erase(it) where it is at the entry of b.
  unfoldable pub erase_at : Buffer → Entries A → Entries A
  erase_at b [] = []
  erase_at b ((c, x) ∷ m) =
      let rest = erase_at b m in
      if less c b then (c, x) ∷ rest else if less b c then (c, x) ∷ m else m

  -- The buffers of a map, in its order.
  unfoldable pub stored : Entries A → List Buffer
  stored [] = []
  stored ((b, x) ∷ m) = b ∷ stored m

  abbrev pub Above : Buffer → Entries A → Type 0
  Above b [] = Unit {0}
  Above b ((c, x) ∷ m) = (less b c ≡ true) × Above b m

  abbrev pub IsSorted : Entries A → Type 0
  IsSorted [] = Unit {0}
  IsSorted ((b, x) ∷ m) = Above b m × IsSorted m
