-- ===== src/Server/Exists.antt =====
-- src/server/exists.cpp and length.cpp.
use mochi_rkv.Prelude.{
  ℕ, zero, suc, ◌+◌, ◌*◌, ◌/◌, Bool, true, not, List, [], ◌∷◌, length, Option, none, some, ltb,
  ◌==◌, drop, if◌then◌else◌,
}
use mochi_rkv.Common.{
  Bytes, success, invalid_arg, invalid_mode, Ret, returned, Mode, UserMem, add_size,
}
use mochi_rkv.LogBackend.File.{overwrite}
use mochi_rkv.MapBackend.Write.{accumulate}
use mochi_rkv.Server.{
  DatabaseInterface, Reply, answered, from_mercury, faulted, reply_of, Rpc, checked, direct,
  Transport, pulled, sizeof_size, read_sizes, size_bytes, region, min_key_size, or_stop,
}
use mochi_rkv.Server.Put.{Input}
use mochi_rkv.Server.Get.{Pushes, pushed, with_sizes}

-- The byte of a BitField with these bits, lowest first.
abbrev pub bits_value : ℕ → List Bool → ℕ
bits_value zero bs = 0
bits_value (suc n) [] = 0
bits_value (suc n) (b ∷ bs) = (if b then 1 else 0) + 2 * bits_value n bs

-- The bytes of a BitField; `n` of them.
unfoldable pub flag_bytes : ℕ → List Bool → Bytes
flag_bytes zero bs = []
flag_bytes (suc n) bs = bits_value 8 bs ∷ flag_bytes n (drop 8 bs)

-- std::ceil(((double)count)/8.0), which is exact for counts up to 2 ^ 53.
abbrev pub flags_size : ℕ → ℕ
flags_size count = (count + 7) / 8

module _ (D : DatabaseInterface) (t : Transport) where
  abbrev Outcome : Type 0
  Outcome = Reply × Pushes × D.State

  abbrev failed : Reply → D.State → Outcome
  failed r s = (r, [], s)

  -- What both handlers do with the outcome: on OK they send n bytes of the buffer from a place on.
  unfoldable pub push_result : Input → Ret → Bytes → ℕ → ℕ → D.State → Outcome
  unfolding pushed
  push_result i r buf at n s = elim r [
    | returned st ↦ elim st [
      | success ↦ elim (pushed t buf at (add_size i.offset at) n) [
        | none ↦ failed from_mercury s
        | some p ↦ (answered success, p ∷ [], s)
      ]
      | st' ↦ failed (answered st') s
    ]
    | r' ↦ failed (reply_of r') s
  ]

  -- Both handlers behind the transfer of the sizes: the checks, and the transfer of the keys. `out_size`
  -- is what the request has room for behind the keys, and `ask` goes on with its place.
  unfoldable pub keys_pulled :
      Input → ℕ → ℕ → (List ℕ → UserMem → ℕ → Bytes → Outcome) → Bytes → D.State → Outcome
  unfolding pulled
  keys_pulled i addr out_size ask buf s =
      let keys_offset = i.count * sizeof_size in
      or_stop (read_sizes buf 0 i.count) (failed faulted s) λ ksizes.
        let total_ksize = accumulate 0 ksizes in
        let out_offset = add_size keys_offset total_ksize in
        if min_key_size ksizes == 0
        then failed (answered invalid_arg) s
        else if ltb i.size (add_size out_offset out_size)
        then failed (answered invalid_arg) s
        else or_stop (pulled t buf keys_offset (add_size i.offset keys_offset) total_ksize)
            (failed from_mercury s)
            λ b.
              or_stop (region addr b keys_offset total_ksize) (failed faulted s)
                λ keys. ask ksizes keys out_offset b

  -- database->exists into the flags of the buffer, all zero before.
  unfoldable pub ask_exists : Input → D.State → List ℕ → UserMem → ℕ → Bytes → Outcome
  unfolding push_result flag_bytes
  ask_exists i s ksizes keys flags_offset buf =
      let n = flags_size i.count in
      let (r, flags, s') = D.exists i.mode keys ksizes i.count s in
      push_result i r (overwrite buf flags_offset (flag_bytes n flags)) flags_offset n s'

  -- database->length into the sizes of the buffer.
  unfoldable pub ask_length : Input → D.State → List ℕ → UserMem → ℕ → Bytes → Outcome
  unfolding push_result
  ask_length i s ksizes keys vsizes_offset buf =
      let (r, sizes, s') = D.value_length i.mode keys ksizes i.count s in
      push_result i r (overwrite buf vsizes_offset (size_bytes sizes)) vsizes_offset
        (i.count * sizeof_size) s'

  module _ (cache_get : ℕ → Option Bytes) (rpc : Rpc) where
    -- yk_exists_ult and yk_length_ult
    unfoldable pub exists_handler : Input → ℕ → D.State → Outcome
    unfolding keys_pulled ask_exists
    exists_handler i addr s =
        with_sizes D t cache_get rpc i (i.count * sizeof_size)
          (λ b s'. keys_pulled i addr (flags_size i.count) (ask_exists i s') b s') s

    unfoldable pub length_handler : Input → ℕ → D.State → Outcome
    unfolding keys_pulled ask_length
    length_handler i addr s =
        with_sizes D t cache_get rpc i (i.count * sizeof_size)
          (λ b s'. keys_pulled i addr (i.count * sizeof_size) (ask_length i s') b s') s

-- The direct handlers: the sizes and the keys come with the call, and the answer goes with it.
module _ (D : DatabaseInterface) (rpc : Rpc) where
  -- yk_exists_direct_ult, with the bytes of the flags where it sets them.
  unfoldable pub exists_direct_handler : Mode → UserMem → List ℕ → D.State → Reply × Bytes × D.State
  unfolding checked flag_bytes
  exists_direct_handler mode keys ksizes s =
      checked (direct rpc) (D.supports_mode mode) (λ r. (r, [], s))
        (if min_key_size ksizes == 0
          then (answered invalid_arg, [], s)
          else (let (r, flags, s') = D.exists mode keys ksizes (length ksizes) s in
              (reply_of r, flag_bytes (flags_size (length ksizes)) flags, s')))

  -- yk_length_direct_ult asks the database for its modes without CHECK_DATABASE; the sizes are those
  -- that the call writes.
  unfoldable pub length_direct_handler :
      Mode → UserMem → List ℕ → D.State → Reply × List ℕ × D.State
  unfolding checked
  length_direct_handler mode keys ksizes s =
      checked (record (direct rpc) { has_database = true }) true (λ r. (r, [], s))
        (if not rpc.has_database
          then (faulted, [], s)
          else if D.supports_mode mode
          then (if min_key_size ksizes == 0
              then (answered invalid_arg, [], s)
              else (let (r, sizes, s') = D.value_length mode keys ksizes (length ksizes) s in
                  (reply_of r, sizes, s')))
          else (answered invalid_mode, [], s))
