-- ===== src/Server/Tests.antt =====
-- Runs of the handlers of src/server at small requests, and their theorems at such requests.
use mochi_rkv.Prelude.{
  ℕ, ◌+◌, ◌≡◌, refl, false, not, List, [], ◌∷◌, some, none, arith, length, Option, ltb, replicate,
  if◌then◌else◌, Bool-cases, inl, inr, le→ltb, lt→ltb,
}
use mochi_rkv.Common.{Bytes, Mode, mode_of, success, slice}
use mochi_rkv.Bytes.{default_mem_cmp, memcmp}
use mochi_rkv.Bytes.Codec.{to_le, of_le}
use mochi_rkv.LogBackend.File.{overwrite}
use mochi_rkv.Watcher.{notify_key}
use mochi_rkv.OrderedMap.{find, emplace, modify}
use mochi_rkv.Client.{send_put_multi, put_call, bulk_input, segments, is_valid_mode, has_empty}
use mochi_rkv.MapBackend.{MapDatabase, supports_mode}
use mochi_rkv.MapBackend.Write.{put, put_key, put_loop, accumulate}
use mochi_rkv.Server.{
  Transport, IsTransport, answered, checked, pulled, read_sizes, region, min_size,
}
use mochi_rkv.Server.Put.{Input, put_handler, asked, with_request, put_buffer}
use mochi_rkv.Server.Map.{map_interface}
use mochi_rkv.Server.Sent.{all_well}
use mochi_rkv.Server.Arrived.{put_request, put_multi_arrives}

-- Margo between a buffer and this region.
abbrev mover : Bytes → Transport
mover remote = record {
  pull = λ room off n. if ltb room n then none else slice remote off n;
  push = λ room off n. if ltb room n then false else not (ltb (length remote) (off + n));
}

mover-IsTransport : (remote : Bytes) → IsTransport (mover remote) remote
mover-IsTransport remote = record {
  pull_inside = λ room off n h there. rw (le→ltb room n h) refl;
  push_inside =
      λ room off n h there. rw (le→ltb room n h, le→ltb (length remote) (off + n) there) refl;
  push_outside = λ room off n over. elim (Bool-cases (ltb room n)) [
    | inl t ↦ rw t refl
    | inr t ↦ rw (t, lt→ltb (length remote) (off + n) over) refl
  ];
}

-- A cache that has a buffer of the size asked for.
abbrev fresh : ℕ → Option Bytes
fresh n = some (replicate n 0)

abbrev plain : Mode
plain = mode_of 0

abbrev held : MapDatabase
held = record {
  cmp = default_mem_cmp;
  db = (2 ∷ [], 7 ∷ 8 ∷ []) ∷ [];
  has_migrated = false;
  watcher = [];
}

abbrev pairs : List (Bytes × Bytes)
pairs = (1 ∷ [], 5 ∷ 6 ∷ []) ∷ (3 ∷ 3 ∷ [], 9 ∷ []) ∷ []

-- A put of two pairs by bulk, up to the map.
two_arrive :
    put_handler
      (map_interface false)
      (mover (put_request pairs))
      fresh
      all_well
      (bulk_input plain 2 (put_request pairs))
      1000
      held
    ≡ (
      answered success,
      record held { db = (1 ∷ [], 5 ∷ 6 ∷ []) ∷ (2 ∷ [], 7 ∷ 8 ∷ []) ∷ (3 ∷ 3 ∷ [], 9 ∷ []) ∷ [] },
    )
unfolding put_handler with_request supports_mode mode_of segments to_le slice put_buffer read_sizes
    overwrite min_size of_le accumulate region put put_key find default_mem_cmp memcmp put_loop
    emplace modify checked pulled notify_key
two_arrive = refl

put_multi_arrives_example :
    (send_put_multi plain pairs
      ≡ put_call (bulk_input plain 2 (put_request pairs)) (put_request pairs))
    × (put_handler
          (map_interface false)
          (mover (put_request pairs))
          fresh
          all_well
          (bulk_input plain 2 (put_request pairs))
          1000
          held
        ≡ asked (map_interface false) (
            put plain
              (record { addr = 1032; bytes = 1 ∷ 3 ∷ 3 ∷ [] })
              (1 ∷ 2 ∷ [])
              (record { addr = 1035; bytes = 5 ∷ 6 ∷ 9 ∷ [] })
              (2 ∷ 1 ∷ [])
              held))
unfolding mode_of is_valid_mode has_empty supports_mode segments to_le
put_multi_arrives_example =
    put_multi_arrives (map_interface false) (mover (put_request pairs)) fresh (replicate 38 0) 1000
      plain pairs held (omega arith) refl refl refl refl (omega arith) refl (omega arith)
      (mover-IsTransport (put_request pairs))

-- A request of eight bytes that claims to hold the sizes of two keys.
abbrev claimed : Input
claimed = record { mode = mode_of 0; count = 2; offset = 0; size = 8 }

abbrev one_size : Bytes
one_size = 1 ∷ 0 ∷ 0 ∷ 0 ∷ 0 ∷ 0 ∷ 0 ∷ 0 ∷ []

abbrev get_missed : Bytes
get_missed = segments (1 ∷ []) (2 ∷ []) (4 ∷ []) (0 ∷ 0 ∷ [])
