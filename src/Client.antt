-- ===== src/Client.antt =====
-- src/client/put.cpp and get.cpp: what the client checks, and the request that it sends. Arguments
-- that are null are left out, and margo_bulk_create makes a region of the segments one behind the
-- other.
use mochi_rkv.Prelude.{
  ℕ, Bool, true, false, not, ◌&&◌, ◌||◌, List, [], ◌∷◌, ◌++◌, length, ◌==◌, if◌then◌else◌,
}
use mochi_rkv.Common.{
  Bytes, Status, success, invalid_arg, invalid_mode, Mode, size_too_small, key_not_found,
  size_error, not_found,
}
use mochi_rkv.MapBackend.Request.{concat, sizes_of}
use mochi_rkv.MapBackend.Rounds.{keys_of, vals_of}
use mochi_rkv.Server.{size_bytes}
use mochi_rkv.Server.Put.{Input}

-- What a function of the client comes to: it returns at once, or it makes one of the calls. A call
-- by bulk exposes a region; one of `get` may ask for values that follow the sizes given or are packed.
pub data Sent : Type 0 where
  at_once : Status → Sent
  put_call : Input → Bytes → Sent
  put_direct_call : Mode → Bytes → List ℕ → Bytes → List ℕ → Sent
  get_call : Input → Bool → Bytes → Sent
  get_direct_call : Mode → Bytes → List ℕ → ℕ → Sent

-- CHECK_MODE_VALID: no two flags of a row of incompatible_modes.
unfoldable pub is_valid_mode : Mode → Bool
is_valid_mode m = not (
    (m.append && m.new_only)
    || (m.new_only && m.exist_only)
    || (m.suffix && m.lua_filter)
    || (m.lib_filter && m.suffix)
    || (m.lua_filter && m.lib_filter))

abbrev pub if_valid : Mode → Sent → Sent
if_valid mode next = if is_valid_mode mode then next else at_once invalid_mode

unfoldable pub has_empty : List Bytes → Bool
has_empty [] = false
has_empty (k ∷ ks) = let rest = has_empty ks in if length k == 0 then true else rest

-- The segments of a request: the sizes of the keys, the sizes of the values, the keys, and the room
-- for the values or the values.
unfoldable pub segments : List ℕ → List ℕ → Bytes → Bytes → Bytes
segments ksizes vsizes keys vals = size_bytes ksizes ++ (size_bytes vsizes ++ (keys ++ vals))

-- The input of a call by bulk: yk_put_bulk and yk_get_bulk, with the offset 0.
abbrev pub bulk_input : Mode → ℕ → Bytes → Input
bulk_input mode count region = record {
  mode = mode;
  count = count;
  offset = 0;
  size = length region;
}

abbrev pub unless_empty : ℕ → Bytes → Mode → Sent → Sent
unless_empty count region mode next =
    if not (count == 0) && length region == 0 then at_once invalid_arg else if_valid mode next

-- yk_put_direct
unfoldable pub send_put_direct : Mode → Bytes → List ℕ → Bytes → List ℕ → Sent
send_put_direct mode keys ksizes vals vsizes =
    if length ksizes == 0
    then at_once success
    else if_valid mode (put_direct_call mode keys ksizes vals vsizes)

-- yk_put_multi, of pairs of keys and values.
unfoldable pub send_put_multi : Mode → List (Bytes × Bytes) → Sent
unfolding is_valid_mode has_empty segments send_put_direct
send_put_multi mode kvs =
    let keys = keys_of kvs in
    let vals = vals_of kvs in
    let request = segments (sizes_of keys) (sizes_of vals) (concat keys) (concat vals) in
    if length kvs == 0
    then at_once success
    else if mode.no_rdma
    then send_put_direct mode (concat keys) (sizes_of keys) (concat vals) (sizes_of vals)
    else if has_empty keys
    then at_once invalid_arg
    else unless_empty (length kvs) request mode
        (put_call (bulk_input mode (length kvs) request) request)

-- yk_put_packed: the keys and the values are those of the sizes.
unfoldable pub send_put_packed : Mode → Bytes → List ℕ → Bytes → List ℕ → Sent
unfolding is_valid_mode segments send_put_direct
send_put_packed mode keys ksizes vals vsizes =
    let request = segments ksizes vsizes keys vals in
    if mode.no_rdma
    then send_put_direct mode keys ksizes vals vsizes
    else if length ksizes == 0
    then at_once success
    else if length keys == 0
    then at_once invalid_arg
    else unless_empty (length ksizes) request mode
        (put_call (bulk_input mode (length ksizes) request) request)

-- yk_put
unfoldable pub send_put : Mode → Bytes → Bytes → Sent
unfolding send_put_packed
send_put mode key value =
    if length key == 0
    then at_once invalid_arg
    else send_put_packed mode key (length key ∷ []) value (length value ∷ [])

-- yk_get_multi; `values` are the buffers for the values, as they are before the call.
unfoldable pub send_get_multi : Mode → List Bytes → List Bytes → Sent
unfolding is_valid_mode has_empty segments
send_get_multi mode keys values =
    let request = segments (sizes_of keys) (sizes_of values) (concat keys) (concat values) in
    if length keys == 0
    then at_once success
    else if has_empty keys
    then at_once invalid_arg
    else unless_empty (length keys) request mode
        (get_call (bulk_input mode (length keys) request) false request)

-- yk_get_direct
unfoldable pub send_get_direct : Mode → Bytes → List ℕ → ℕ → Sent
send_get_direct mode keys ksizes vbufsize =
    if length ksizes == 0
    then at_once success
    else if_valid mode (get_direct_call mode keys ksizes vbufsize)

-- yk_get_packed; the sizes of the values are `vsizes` before the call, their buffer `values`.
unfoldable pub send_get_packed : Mode → Bytes → List ℕ → List ℕ → Bytes → Sent
unfolding is_valid_mode segments send_get_direct
send_get_packed mode keys ksizes vsizes values =
    let request = segments ksizes vsizes keys values in
    if mode.no_rdma
    then send_get_direct mode keys ksizes (length values)
    else if length ksizes == 0
    then at_once success
    else if length keys == 0
    then at_once invalid_arg
    else unless_empty (length ksizes) request mode
        (get_call (bulk_input mode (length ksizes) request) true request)

-- yk_get: its request, and what it returns for the status and the size that come back.
unfoldable pub send_get : Mode → Bytes → ℕ → Bytes → Sent
unfolding send_get_packed
send_get mode key vsize value =
    if length key == 0
    then at_once invalid_arg
    else send_get_packed mode key (length key ∷ []) (vsize ∷ []) value

unfoldable pub get_status : Status → ℕ → Status
get_status success vsize =
    if vsize == size_too_small
    then size_error
    else if vsize == key_not_found
    then not_found
    else success
get_status st vsize = st
