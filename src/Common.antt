-- ===== src/Common.antt =====
-- include/yokan/common.h, include/yokan/backend.hpp, include/yokan/usermem.hpp: the statuses, the
-- size_t sentinels, the mode flags and the buffers that every backend shares.
use mochi_rkv.Prelude.{
  ℕ, ◌+◌, ◌-◌, ◌%◌, ◌^◌, Bool, ◌||◌, List, take, drop, length, if◌then◌else◌, ltb, Option, none,
  some, ◌/◌, ◌==◌,
}

-- A byte is a number below 256.
abbrev pub Bytes : Type 0
Bytes = List ℕ

-- enum class Status
pub data Status : Type 0 where
  success invalid_type invalid_conf invalid_arg invalid_id not_found size_error : Status
  key_exists not_supported corruption io_error incomplete timed_out aborted busy : Status
  expired try_again system canceled permission invalid_mode migrated : Status
  stop_iteration other : Status

-- What a call comes to: it returns a status, it waits for ever, or it reads outside of a buffer
-- that the caller handed over (undefined behaviour in the source).
pub data Ret : Type 0 where
  returned : Status → Ret
  blocked : Ret
  fault : Ret

-- size_t and uint64_t
abbrev pub size_mod : ℕ
size_mod = 2 ^ 64

abbrev pub add_size : ℕ → ℕ → ℕ
add_size a b = (a + b) % size_mod

-- size_t subtraction
abbrev pub sub_size : ℕ → ℕ → ℕ
sub_size a b = (a + size_mod - b) % size_mod

abbrev pub key_not_found : ℕ
key_not_found = size_mod - 1

abbrev pub size_too_small : ℕ
size_too_small = size_mod - 2

abbrev pub no_more_keys : ℕ
no_more_keys = size_mod - 3

abbrev pub last_valid_size : ℕ
last_valid_size = size_mod - 4

-- The bits of a mode. WAIT and NOTIFY are one bit. `keep_last_bit` is the upper of the two bits of
-- YOKAN_MODE_KEEP_LAST, and `other_bits` is set if any bit above the sixteen is.
pub record Mode : Type 0 where
  pub inclusive : Bool
  pub append : Bool
  pub consume : Bool
  pub wait : Bool
  pub new_only : Bool
  pub exist_only : Bool
  pub no_prefix : Bool
  pub ignore_keys : Bool
  pub keep_last_bit : Bool
  pub suffix : Bool
  pub lua_filter : Bool
  pub ignore_docs : Bool
  pub filter_value : Bool
  pub lib_filter : Bool
  pub no_rdma : Bool
  pub update_new : Bool
  pub other_bits : Bool

bit : ℕ → ℕ → Bool
bit mode k = mode / 2 ^ k % 2 == 1

unfoldable pub mode_of : ℕ → Mode
unfolding bit
mode_of m = record {
  inclusive = bit m 0;
  append = bit m 1;
  consume = bit m 2;
  wait = bit m 3;
  new_only = bit m 4;
  exist_only = bit m 5;
  no_prefix = bit m 6;
  ignore_keys = bit m 7;
  keep_last_bit = bit m 8;
  suffix = bit m 9;
  lua_filter = bit m 10;
  ignore_docs = bit m 11;
  filter_value = bit m 12;
  lib_filter = bit m 13;
  no_rdma = bit m 14;
  update_new = bit m 15;
  other_bits = ltb 0 (m / 2 ^ 16);
}

-- mode & YOKAN_MODE_NOTIFY
abbrev pub notify : Mode → Bool
notify m = m.wait

-- mode & YOKAN_MODE_KEEP_LAST: non-zero if either of its two bits is set.
abbrev pub keep_last : Mode → Bool
keep_last m = m.ignore_keys || m.keep_last_bit

-- A buffer of the caller: its address, and its bytes.
pub record UserMem : Type 0 where
  pub addr : ℕ
  pub bytes : Bytes

abbrev pub size : UserMem → ℕ
size u = length u.bytes

-- The `n` bytes at offset `off`, if they lie inside.
unfoldable pub slice : Bytes → ℕ → ℕ → Option Bytes
slice b off n = if ltb (length b) (off + n) then none else some (take n (drop off b))

-- BasicUserMem::from; none is the exception.
unfoldable pub from : UserMem → ℕ → Option UserMem
from u off =
    if ltb (size u) off
    then none
    else some (record { addr = u.addr + off; bytes = drop off u.bytes })
