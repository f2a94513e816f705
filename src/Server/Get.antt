-- ===== src/Server/Get.antt =====
-- src/server/get.cpp and length.cpp.
use mochi_rkv.Prelude.{
  ℕ, ◌+◌, ◌*◌, ◌-◌, ◌%◌, Bool, not, true, List, [], ◌∷◌, length, Option, none, some, ltb, ◌==◌,
  ◌&&◌, take, replicate, replicate, if◌then◌else◌,
}
use mochi_rkv.Common.{
  Bytes, success, invalid_arg, returned, Mode, UserMem, add_size, size_mod, slice,
}
use mochi_rkv.LogBackend.File.{overwrite}
use mochi_rkv.MapBackend.Read.{Slot}
use mochi_rkv.MapBackend.Write.{accumulate}
use mochi_rkv.Server.{
  DatabaseInterface, Reply, answered, from_mercury, allocation, faulted, reply_of, Rpc, checked,
  direct, Transport, pulled, sizeof_size, read_sizes, size_bytes, region, min_key_size, or_stop,
}
use mochi_rkv.Server.Put.{Input}

-- What a handler sends to the client's region: the offsets with the bytes.
abbrev pub Pushes : Type 0
Pushes = List (ℕ × Bytes)

-- The values of the slots at their places.
unfoldable pub place_slots : ℕ → List Slot → Bytes → Bytes
unfolding overwrite
place_slots at [] buf = buf
place_slots at (slot ∷ slots) buf = place_slots at slots (overwrite buf (at + slot.at) slot.written)

abbrev pub slot_values : List Slot → List ℕ
slot_values [] = []
slot_values (slot ∷ slots) = slot.value ∷ slot_values slots

abbrev pub first_or : ℕ → List ℕ → ℕ
first_or z [] = z
first_or z (n ∷ ns) = n

abbrev pub value_or : ℕ → Option ℕ → ℕ
value_or z none = z
value_or z (some n) = n

-- One transfer to the client: n bytes of the buffer at a place, to an offset of the region.
unfoldable pub pushed : Transport → Bytes → ℕ → ℕ → ℕ → Option (ℕ × Bytes)
pushed t buf at off n =
    if t.push (length buf - at) off n
    then elim (slice buf at n) [ none ↦ none | some b ↦ some (off, b) ]
    else none

-- `offset` is that of the input, the others are those of the parts of the request.
pub record Layout : Type 0 where
  pub offset : ℕ
  pub vsizes_offset : ℕ
  pub vals_offset : ℕ
  pub remaining_vsize : ℕ

-- The sizes of the values go to the client behind what was sent before.
unfoldable pub push_sizes : Transport → ℕ → Layout → Bytes → Pushes → Reply × Pushes
push_sizes t count l buf before =
    elim (pushed t buf l.vsizes_offset (add_size l.offset l.vsizes_offset) (count * sizeof_size)) [
      | none ↦ (from_mercury, before)
      | some p ↦ (answered success, p ∷ before)
    ]

-- The end of yk_get_ult: the values go first, then their sizes.
unfoldable pub push_values : Transport → ℕ → Layout → Bytes → List Slot → ℕ → Reply × Pushes
push_values t count l buf slots vals_size =
    let values = slot_values slots in
    let buf' =
      overwrite (place_slots l.vals_offset slots buf) l.vsizes_offset (size_bytes values) in
    let xfer_size = if count == 1 then first_or 0 values else l.remaining_vsize in
    if vals_size == 0
    then push_sizes t count l buf' []
    else elim (pushed t buf' l.vals_offset (add_size l.offset l.vals_offset) xfer_size) [
      | none ↦ (from_mercury, [])
      | some p ↦ push_sizes t count l buf' (p ∷ [])
    ]

module _ (D : DatabaseInterface) (t : Transport) where
  abbrev Outcome : Type 0
  Outcome = Reply × Pushes × D.State

  abbrev failed : Reply → D.State → Outcome
  failed r s = (r, [], s)

  -- yk_get_ult behind its checks.
  unfoldable pub get_checked :
      Input → Bool → Layout → List ℕ → List ℕ → UserMem → Bytes → D.State → Outcome
  get_checked i packed l ksizes vsizes keys buf s =
      let (r, slots, vals_size, s') = D.get i.mode packed keys ksizes l.remaining_vsize vsizes s in
      elim r [
        | returned st ↦ elim st [
          | success ↦
              let (reply, pushes) =
                push_values t i.count l buf slots (value_or l.remaining_vsize vals_size) in
              (reply, pushes, s')
          | st' ↦ failed (answered st') s'
        ]
        | r' ↦ failed (reply_of r') s'
      ]

  -- yk_get_ult behind the transfer of the sizes. A packed request has no value sizes to look at.
  unfoldable pub get_sized : Input → Bool → ℕ → Bytes → D.State → Outcome
  get_sized i packed addr buf s =
      let vsizes_offset = i.count * sizeof_size in
      let keys_offset = vsizes_offset * 2 in
      or_stop (read_sizes buf 0 i.count) (failed faulted s) λ ksizes.
        let total_ksize = accumulate 0 ksizes in
        let vals_offset = add_size keys_offset total_ksize in
        if min_key_size ksizes == 0
        then failed (answered invalid_arg) s
        else if ltb i.size vals_offset
        then failed (answered invalid_arg) s
        else or_stop (read_sizes buf vsizes_offset i.count) (failed faulted s) λ vsizes.
          if not packed && ltb i.size (add_size vals_offset (accumulate 0 vsizes))
          then failed (answered invalid_arg) s
          else or_stop (pulled t buf keys_offset (add_size i.offset keys_offset) total_ksize)
              (failed from_mercury s)
              λ b. or_stop (region addr b keys_offset total_ksize) (failed faulted s) λ keys.
                get_checked i packed
                  (record {
                    offset = i.offset;
                    vsizes_offset = vsizes_offset;
                    vals_offset = vals_offset;
                    remaining_vsize = i.size - vals_offset;
                  })
                  ksizes vsizes keys b s

  module _ (cache_get : ℕ → Option Bytes) (rpc : Rpc) where
    -- A handler that pulls the sizes first, n bytes of them as a size_t has it.
    unfoldable pub with_sizes : Input → ℕ → (Bytes → D.State → Outcome) → D.State → Outcome
    unfolding checked
    with_sizes i n next s =
        checked rpc (D.supports_mode i.mode) (λ r. failed r s)
          (or_stop (cache_get i.size) (failed allocation s) λ buf.
            or_stop (pulled t buf 0 i.offset (n % size_mod)) (failed from_mercury s) λ b. next b s)

    -- yk_get_ult
    unfoldable pub get_handler : Input → Bool → ℕ → D.State → Outcome
    get_handler i packed addr s =
        let sizes_size = i.count * sizeof_size in
        with_sizes i (if packed then sizes_size else sizes_size * 2) (get_sized i packed addr) s

-- yk_get_direct_ult: the answer takes the sizes and the values with it.
unfoldable pub get_direct_handler :
    (D : DatabaseInterface)
    → Rpc
    → Mode
    → UserMem
    → List ℕ
    → ℕ
    → D.State
    → Reply × (List ℕ × Bytes) × D.State
unfolding checked place_slots
get_direct_handler D rpc mode keys ksizes vbufsize s =
    checked (direct rpc) (D.supports_mode mode) (λ r. (r, ([], []), s))
      (if min_key_size ksizes == 0
        then (answered invalid_arg, ([], []), s)
        else (let (r, slots, vals_size, s') =
              D.get mode true keys ksizes vbufsize (replicate (length ksizes) 0) s in
            elim r [
              | returned st ↦ elim st [
                | success ↦ (
                  answered success,
                  (
                    slot_values slots,
                    take (value_or vbufsize vals_size) (place_slots 0 slots (replicate vbufsize 0)),
                  ),
                  s',
                )
                | st' ↦ (answered st', ([], []), s')
              ]
              | r' ↦ (reply_of r', ([], []), s')
            ]))
