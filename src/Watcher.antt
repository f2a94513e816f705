-- ===== src/Watcher.antt =====
-- include/yokan/watcher.hpp: the threads that wait for a key, and who wakes them. The multimap is
-- the list of its entries, those of one key in the order in which they were added.
pub mod Laws
pub mod Tests
use mochi_rkv.Prelude.{
  ℕ, zero, suc, Bool, true, false, ◌&&◌, List, [], ◌∷◌, ◌++◌, Option, none, some, ◌==◌,
  if◌then◌else◌,
}
use mochi_rkv.Common.{Bytes}

-- enum KeyWatcher::Status
pub data WatchStatus : Type 0 where
  pending key_present timeout logic_error : WatchStatus

-- An entry of m_expected_keys: the address and the bytes of its string_view, and its m_status.
pub record Waiting : Type 0 where
  pub addr : ℕ
  pub key : Bytes
  pub status : WatchStatus

abbrev pub Watcher : Type 0
Watcher = List Waiting

abbrev pub same_key : Bytes → Bytes → Bool
same_key [] [] = true
same_key [] (b ∷ r) = false
same_key (a ∷ l) [] = false
same_key (a ∷ l) (b ∷ r) = a == b && same_key l r

-- KeyWatcher::addKey
unfoldable pub add_key : ℕ → Bytes → Watcher → Watcher
add_key addr key w = w ++ record { addr = addr; key = key; status = pending } ∷ []

-- KeyWatcher::notifyKey: the loop over equal_range.
unfoldable pub notify_key : Bytes → Watcher → Watcher
notify_key key [] = []
notify_key key (e ∷ w) =
    (if same_key e.key key then record e { status = key_present } else e) ∷ notify_key key w

-- The entries of equal_range(key).
unfoldable pub equal_range : Bytes → Watcher → List Waiting
equal_range key [] = []
equal_range key (e ∷ w) =
    let rest = equal_range key w in if same_key e.key key then e ∷ rest else rest

-- The loop of KeyWatcher::waitKey that looks for the entry at the caller's address, with fuel:
-- `while(it != range.second) { if(it->first.data() == key.data) break; }`. The iterator is not
-- advanced. `none` means that the fuel ran out, `some none` that the range is empty.
unfoldable pub wait_search : ℕ → ℕ → List Waiting → Option (Option Waiting)
wait_search zero addr range = none
wait_search (suc fuel) addr [] = some none
wait_search (suc fuel) addr (e ∷ range) =
    let again = wait_search fuel addr (e ∷ range) in if e.addr == addr then some (some e) else again
