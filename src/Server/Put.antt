-- ===== src/Server/Put.antt =====
-- src/server/put.cpp, erase.cpp and count.cpp.
use mochi_rkv.Prelude.{ℕ, ◌+◌, ◌*◌, List, Option, none, ltb, ◌==◌, if◌then◌else◌}
use mochi_rkv.Common.{Bytes, invalid_arg, Ret, Mode, UserMem, add_size}
use mochi_rkv.MapBackend.Write.{accumulate}
use mochi_rkv.Server.{
  DatabaseInterface, Reply, answered, from_mercury, allocation, faulted, reply_of, Rpc, checked,
  direct, Transport, pulled, sizeof_size, read_sizes, region, min_key_size, or_stop,
}

-- The input of a handler: in.mode, in.count, in.offset and in.size.
pub record Input : Type 0 where
  pub mode : Mode
  pub count : ℕ
  pub offset : ℕ
  pub size : ℕ

module _ (D : DatabaseInterface) where
  abbrev pub asked : Ret × D.State → Reply × D.State
  asked (r, s) = (reply_of r, s)

  -- yk_put_ult behind the transfer: the key sizes, the value sizes, the keys and the values stand in
  -- the buffer one behind the other. `addr` is the address of the buffer.
  unfoldable pub put_buffer : Input → ℕ → Bytes → D.State → Reply × D.State
  put_buffer i addr buf s =
      or_stop (read_sizes buf 0 i.count) (faulted, s)
        λ ksizes.
          or_stop (read_sizes buf (i.count * sizeof_size) i.count) (faulted, s)
            λ vsizes.
              let total_ksize = accumulate 0 ksizes in
              let total_vsize = accumulate 0 vsizes in
              let sizes_size = 2 * i.count * sizeof_size in
              if min_key_size ksizes == 0
              then (answered invalid_arg, s)
              else if ltb i.size (add_size (add_size sizes_size total_ksize) total_vsize)
              then (answered invalid_arg, s)
              else or_stop (region addr buf sizes_size total_ksize) (faulted, s)
                  λ keys.
                    or_stop (region addr buf (sizes_size + total_ksize) total_vsize) (faulted, s)
                      λ vals. asked (D.put i.mode keys ksizes vals vsizes s)

  -- yk_erase_ult behind the transfer.
  unfoldable pub erase_buffer : Input → ℕ → Bytes → D.State → Reply × D.State
  erase_buffer i addr buf s =
      or_stop (read_sizes buf 0 i.count) (faulted, s)
        λ ksizes.
          let total_ksize = accumulate 0 ksizes in
          let sizes_size = i.count * sizeof_size in
          if min_key_size ksizes == 0
          then (answered invalid_arg, s)
          else if ltb i.size (add_size sizes_size total_ksize)
          then (answered invalid_arg, s)
          else or_stop (region addr buf sizes_size total_ksize) (faulted, s)
              λ keys. asked (D.erase i.mode keys ksizes s)

  module _ (t : Transport) (cache_get : ℕ → Option Bytes) (rpc : Rpc) where
    -- The part that both share: the buffer of the cache, none where there is none, and the transfer.
    unfoldable pub with_request :
        Input → (Bytes → D.State → Reply × D.State) → D.State → Reply × D.State
    unfolding checked pulled
    with_request i next s =
        checked rpc (D.supports_mode i.mode) (λ r. (r, s))
          (or_stop (cache_get i.size) (allocation, s)
            λ buf. or_stop (pulled t buf 0 i.offset i.size) (from_mercury, s) λ b. next b s)

    -- yk_put_ult and yk_erase_ult
    unfoldable pub put_handler : Input → ℕ → D.State → Reply × D.State
    put_handler i addr s = with_request i (put_buffer i addr) s

    unfoldable pub erase_handler : Input → ℕ → D.State → Reply × D.State
    erase_handler i addr s = with_request i (erase_buffer i addr) s

  module _ (rpc : Rpc) where
    -- yk_put_direct_ult: the sizes, the keys and the values come with the call.
    unfoldable pub put_direct_handler :
        Mode → UserMem → List ℕ → UserMem → List ℕ → D.State → Reply × D.State
    unfolding checked
    put_direct_handler mode keys ksizes vals vsizes s =
        checked (direct rpc) (D.supports_mode mode) (λ r. (r, s))
          (if min_key_size ksizes == 0
            then (answered invalid_arg, s)
            else asked (D.put mode keys ksizes vals vsizes s))

    -- yk_erase_direct_ult
    unfoldable pub erase_direct_handler : Mode → UserMem → List ℕ → D.State → Reply × D.State
    unfolding checked
    erase_direct_handler mode keys ksizes s =
        checked (direct rpc) (D.supports_mode mode) (λ r. (r, s))
          (if min_key_size ksizes == 0
            then (answered invalid_arg, s)
            else asked (D.erase mode keys ksizes s))

    -- yk_count_ult
    unfoldable pub count_handler : Mode → D.State → Reply × Option ℕ
    unfolding checked
    count_handler mode s =
        checked (direct rpc) (D.supports_mode mode) (λ r. (r, none))
          (let (st, c) = D.count s in (answered st, c))
