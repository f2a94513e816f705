-- ===== src/MapBackend/Invariant.antt =====
-- The invariant of the database: its entries stand in the order of its comparator. Every call
-- keeps it, whatever the request.
use mochi_rkv.Prelude.{List, [], ◌∷◌}
use mochi_rkv.Common.{Bytes}
use mochi_rkv.Bytes.{IsStrictTotal}
use mochi_rkv.OrderedMap.{IsSorted}
use mochi_rkv.MapBackend.{MapDatabase, Wake}
use mochi_rkv.MapBackend.Write.{PutStep, continue, stop, bad_read}

pub record IsValid (s : MapDatabase) : Type 0 where
  pub order : IsStrictTotal s.cmp
  pub sorted : IsSorted s.cmp s.db

-- The databases that other threads leave behind are valid.
abbrev pub AllValid : List Wake → Type 0
AllValid [] = Unit {0}
AllValid ((st, s) ∷ ws) = IsValid s × AllValid ws

abbrev KeepsStep : PutStep → Type 0
KeepsStep (continue s') = IsValid s'
KeepsStep (stop st) = Unit {0}
KeepsStep bad_read = Unit {0}
