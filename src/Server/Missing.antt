-- ===== src/Server/Missing.antt =====
-- yk_get_multi of one key that the map does not hold.
use mochi_rkv.Prelude.{ℕ, ◌-◌, ◌≤◌, ◌<◌, refl, arith, [], ◌∷◌, ◌++◌, length, Option, Bool}
use mochi_rkv.Common.{Bytes, size_mod, Mode}
use mochi_rkv.Client.{segments}
use mochi_rkv.MapBackend.{MapDatabase}
use mochi_rkv.Server.{Transport}
use mochi_rkv.Server.Get.{Layout}
use mochi_rkv.Server.Asked.{layout}

module _ (t : Transport) (cache_get : ℕ → Option Bytes) (buf : Bytes) (addr : ℕ) (mode : Mode)
    (k v : Bytes) (s : MapDatabase) (lua : Bool) where
  abbrev asked_for : Bytes
  asked_for = segments (length k ∷ []) (length v ∷ []) (k ++ []) (v ++ [])

  abbrev the_layout : length asked_for < size_mod - 1 → length asked_for ≤ length buf → Layout
  the_layout short room = layout (k ∷ []) (v ∷ []) 1 refl refl (omega (arith, short)) buf room
