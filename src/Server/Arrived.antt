-- ===== src/Server/Arrived.antt =====
-- A put of the client reaches the database as it was made; a request that claims more sizes than its
-- buffer holds makes the handler read outside of it.
use mathlib.Core.List.{append-nil}
use mochi_rkv.Prelude.{
  ℕ, suc, ◌+◌, ◌*◌, ◌≤◌, ◌<◌, ◌≡◌, ◌≢◌, refl, sym, ap, arith, List, [], ◌∷◌, length, drop, some,
  true, false, ◌==◌, Option,
}
use mochi_rkv.Common.{Bytes, size_mod, Mode}
use mochi_rkv.Client.{put_call, send_put_multi, segments, has_empty, is_valid_mode, bulk_input}
use mochi_rkv.MapBackend.Request.{concat, sizes_of}
use mochi_rkv.MapBackend.Rounds.{keys_of, vals_of}
use mochi_rkv.Server.{DatabaseInterface, Transport, IsTransport, checked, sizeof_size}
use mochi_rkv.Server.Put.{put_handler, with_request, asked}
use mochi_rkv.Server.Layout.{pulled_start}
use mochi_rkv.Server.Sent.{all_well, put_buffer_lem, length-request}

length-keys_of : (kvs : List (Bytes × Bytes)) → length kvs ≡ length (keys_of kvs)
length-keys_of [] = refl
length-keys_of (kv ∷ kvs) = ap suc (length-keys_of kvs)

length-vals_of : (kvs : List (Bytes × Bytes)) → length kvs ≡ length (vals_of kvs)
length-vals_of [] = refl
length-vals_of (kv ∷ kvs) = ap suc (length-vals_of kvs)

-- The request of a put of these pairs.
abbrev pub put_request : List (Bytes × Bytes) → Bytes
put_request kvs =
    segments (sizes_of (keys_of kvs)) (sizes_of (vals_of kvs)) (concat (keys_of kvs))
      (concat (vals_of kvs))

put_multi_sent :
    (mode : Mode) (kvs : List (Bytes × Bytes))
    → length kvs ≢ 0
    → has_empty (keys_of kvs) ≡ false
    → mode.no_rdma ≡ false
    → is_valid_mode mode ≡ true
    → length (put_request kvs) ≢ 0
    → send_put_multi mode kvs
      ≡ put_call (bulk_input mode (length kvs) (put_request kvs)) (put_request kvs)
unfolding send_put_multi
put_multi_sent mode kvs some_keys full bulk valid some_bytes =
    let e : (length kvs == 0) ≡ false = ground (arith, some_keys) in
    let e' : (length (put_request kvs) == 0) ≡ false = ground (arith, some_bytes) in
    simp (e, bulk, full, e', valid)

-- For pairs of which there is at least one, with no empty key, a mode that is valid, without
-- NO_RDMA and supported by the database, and a request of less than 2 ^ 64 bytes: yk_put_multi makes
-- one call by bulk with the request; where the checks of the provider hold, the cache gives a buffer
-- that is long enough, and the transport moves bytes inside of the regions, yk_put_ult answers what
-- the database's put returns for the keys and the values one behind the other, with their sizes, and
-- leaves the database in the state of that put.
pub put_multi_arrives :
    (D : DatabaseInterface) (t : Transport) (cache_get : ℕ → Option Bytes) (buf : Bytes) (addr : ℕ)
    (mode : Mode) (kvs : List (Bytes × Bytes)) (s : D.State)
    → length kvs ≢ 0
    → has_empty (keys_of kvs) ≡ false
    → mode.no_rdma ≡ false
    → is_valid_mode mode ≡ true
    → D.supports_mode mode ≡ true
    → length (put_request kvs) < size_mod
    → cache_get (length (put_request kvs)) ≡ some buf
    → length (put_request kvs) ≤ length buf
    → IsTransport t (put_request kvs)
    → (send_put_multi mode kvs
        ≡ put_call (bulk_input mode (length kvs) (put_request kvs)) (put_request kvs))
      × (put_handler D t cache_get all_well (bulk_input mode (length kvs) (put_request kvs)) addr s
          ≡ asked D (
              D.put mode
                (record {
                  addr = addr + 2 * length kvs * sizeof_size;
                  bytes = concat (keys_of kvs);
                })
                (sizes_of (keys_of kvs))
                (record {
                  addr = addr + (2 * length kvs * sizeof_size + length (concat (keys_of kvs)));
                  bytes = concat (vals_of kvs);
                })
                (sizes_of (vals_of kvs))
                s))
unfolding send_put_multi put_handler with_request checked
put_multi_arrives D t cache_get buf addr mode kvs s some_keys full bulk valid supported short cached
      room law =
    let r = put_request kvs in
    let nk = length-keys_of kvs in
    let nv = length-vals_of kvs in
    let l = length-request (keys_of kvs) (vals_of kvs) [] (length kvs) nk nv short in
    (
      put_multi_sent mode kvs some_keys full bulk valid (omega (arith, l, some_keys)),
      rw (supported, cached, pulled_start t r buf r [] law (sym (append-nil r)) room)
          (put_buffer_lem (keys_of kvs) (vals_of kvs) (drop (length r) buf) (length kvs) nk nv short
            D mode addr s full),
    )
