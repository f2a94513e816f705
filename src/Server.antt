-- ===== src/Server.antt =====
-- The handlers of src/server, over a database: what they check before they ask it, the buffers that
-- they take and the transfers from and to the client. Margo, which moves the bytes, is a parameter.
pub mod Put
pub mod Get
pub mod Exists
pub mod Layout
pub mod Map
pub mod Arrived
pub mod Asked
pub mod Missing
pub mod Sent
pub mod Tests
use mochi_rkv.Prelude.{
  ℕ, zero, suc, ◌+◌, ◌*◌, ◌-◌, ◌≤◌, ◌<◌, ◌≡◌, min, Bool, true, false, not, List, [], ◌∷◌, ◌++◌,
  length, Option, none, some, if◌then◌else◌,
}
use mochi_rkv.Common.{
  Bytes, Status, invalid_mode, Ret, returned, blocked, fault, Mode, UserMem, size_mod, slice,
}
use mochi_rkv.Bytes.Codec.{to_le, of_le}
use mochi_rkv.LogBackend.File.{overwrite}
use mochi_rkv.MapBackend.Read.{Slot}

-- The operations of DatabaseInterface that the handlers call, over a state of their own. `get`
-- returns vals.size where it sets it.
pub record DatabaseInterface : Type 1 where
  pub State : Type 0
  pub supports_mode : Mode → Bool
  pub count : State → Status × Option ℕ
  pub exists : Mode → UserMem → List ℕ → ℕ → State → Ret × List Bool × State
  pub value_length : Mode → UserMem → List ℕ → ℕ → State → Ret × List ℕ × State
  pub put : Mode → UserMem → List ℕ → UserMem → List ℕ → State → Ret × State
  pub get : Mode → Bool → UserMem → List ℕ → ℕ → List ℕ → State → Ret × List Slot × Option ℕ × State
  pub erase : Mode → UserMem → List ℕ → State → Ret × State

-- out.ret, or what becomes of a handler that does not respond.
pub data Reply : Type 0 where
  answered : Status → Reply
  invalid_mid invalid_provider invalid_database from_mercury allocation : Reply
  waits : Reply
  faulted : Reply

abbrev pub reply_of : Ret → Reply
reply_of (returned st) = answered st
reply_of blocked = waits
reply_of fault = faulted

-- What Margo and the provider come to before a handler reads its input: the instance, the provider,
-- the input, the address of the client, and the provider's database.
pub record Rpc : Type 0 where
  pub has_mid : Bool
  pub has_provider : Bool
  pub has_input : Bool
  pub has_origin : Bool
  pub has_database : Bool

-- CHECK_MID to CHECK_MODE_SUPPORTED, in the order of the handlers.
unfoldable pub checked {ℓ} : {A : Type ℓ} → Rpc → Bool → (Reply → A) → A → A
checked rpc supported stop next =
    if not rpc.has_mid
    then stop invalid_mid
    else if not rpc.has_provider
    then stop invalid_provider
    else if not rpc.has_input
    then stop from_mercury
    else if not rpc.has_origin
    then stop from_mercury
    else if not rpc.has_database
    then stop invalid_database
    else if not supported
    then stop (answered invalid_mode)
    else next

-- The direct handlers look up no address.
abbrev pub direct : Rpc → Rpc
direct rpc = record rpc { has_origin = true }

-- margo_bulk_transfer from and to the client's region. `pull room off n` are the n bytes at the
-- offset, where the local region has that room; `push` says whether the bytes arrive. none and false
-- are a status other than HG_SUCCESS.
pub record Transport : Type 0 where
  pub pull : ℕ → ℕ → ℕ → Option Bytes
  pub push : ℕ → ℕ → ℕ → Bool

-- What Mercury documents: a transfer inside of both regions moves the bytes of the remote one, and one
-- that leaves the remote region or the local one is refused.
pub record IsTransport (t : Transport) (remote : Bytes) : Type 0 where
  pub pull_inside :
      (room off n : ℕ) → n ≤ room → off + n ≤ length remote → t.pull room off n ≡ slice remote off n
  pub push_inside : (room off n : ℕ) → n ≤ room → off + n ≤ length remote → t.push room off n ≡ true
  pub push_outside : (room off n : ℕ) → length remote < off + n → t.push room off n ≡ false

-- The buffer with n bytes of the client's, from an offset of its region, at a place of the buffer.
unfoldable pub pulled : Transport → Bytes → ℕ → ℕ → ℕ → Option Bytes
pulled t buf at off n = elim (t.pull (length buf - at) off n) [
  | none ↦ none
  | some bytes ↦ some (overwrite buf at bytes)
]

abbrev pub sizeof_size : ℕ
sizeof_size = 8

-- The sizes that a BasicUserMem<size_t> over a place of the buffer shows; none is a read outside.
unfoldable pub read_sizes : Bytes → ℕ → ℕ → Option (List ℕ)
read_sizes buf at zero = some []
read_sizes buf at (suc n) =
    let rest = read_sizes buf (at + sizeof_size) n in
    elim (slice buf at sizeof_size) [
      | none ↦ none
      | some b ↦ elim rest [ none ↦ none | some ns ↦ some (of_le b ∷ ns) ]
    ]

-- The bytes of sizes.
abbrev pub size_bytes : List ℕ → Bytes
size_bytes [] = []
size_bytes (n ∷ ns) = to_le sizeof_size n ++ size_bytes ns

-- UserMem{ ptr + at, n }. A wrapper that reaches behind the buffer is a fault.
unfoldable pub region : ℕ → Bytes → ℕ → ℕ → Option UserMem
region addr buf at n = elim (slice buf at n) [
  | none ↦ none
  | some b ↦ some (record { addr = addr + at; bytes = b })
]

-- std::accumulate with std::min from the largest size_t.
unfoldable pub min_size : ℕ → List ℕ → ℕ
min_size m [] = m
min_size m (n ∷ ns) = min_size (min m n) ns

abbrev pub min_key_size : List ℕ → ℕ
min_key_size = min_size (size_mod - 1)

-- How a handler goes on with what may be missing.
abbrev pub or_stop {ℓ} : {A B : Type ℓ} → Option A → B → (A → B) → B
or_stop none stop next = stop
or_stop (some a) stop next = next a
