-- ===== src/Watcher/Laws.antt =====
-- Whom a notification wakes, and when waitKey finds its entry.
use mochi_rkv.Prelude.{ℕ, zero, suc, ◌≡◌, ◌≢◌, refl, true, List, [], ◌∷◌, none, some, arith}
use mochi_rkv.Common.{Bytes}
use mochi_rkv.Watcher.{
  Watcher, Waiting, WatchStatus, pending, key_present, same_key, add_key, notify_key, equal_range,
  wait_search,
}

pub same_key_refl : (k : Bytes) → same_key k k ≡ true
same_key_refl [] = refl
same_key_refl (a ∷ k) = ground (arith, same_key_refl k)

abbrev pub statuses : List Waiting → List WatchStatus
statuses [] = []
statuses (e ∷ w) = e.status ∷ statuses w

abbrev pub AllStatus : WatchStatus → List Waiting → Type 0
AllStatus st [] = Unit {0}
AllStatus st (e ∷ w) = (e.status ≡ st) × AllStatus st w

-- After notifyKey(key) every thread that waits for that key is marked as woken.
notify_key_wakes_all :
    (key : Bytes) (w : Watcher) → AllStatus key_present (equal_range key (notify_key key w))
unfolding notify_key equal_range
notify_key_wakes_all key [] = tt
notify_key_wakes_all key (e ∷ w) = ground (arith, notify_key_wakes_all key w)

pub same_key_sound : (a b : Bytes) → same_key a b ≡ true → a ≡ b
same_key_sound [] [] h = refl
same_key_sound [] (y ∷ b) h = cc
same_key_sound (x ∷ a) [] h = cc
same_key_sound (x ∷ a) (y ∷ b) h = ground (arith, same_key_sound a b)

same_key_clash : (e a b : Bytes) → same_key e a ≡ true → same_key e b ≡ true → a ≡ b
same_key_clash e a b h k = cc (same_key_sound e a h, same_key_sound e b k)

-- notifyKey(key) leaves the threads that wait for another key as they are.
pub notify_key_others :
    (key other : Bytes) (w : Watcher)
    → key ≢ other
    → equal_range other (notify_key key w) ≡ equal_range other w
unfolding notify_key equal_range
notify_key_others key other [] h = refl
notify_key_others key other (e ∷ w) h =
    ground (arith, notify_key_others key other w h, same_key_clash e.key key other)

-- waitKey finds its entry at once when no other thread waits for the same key.
pub wait_search_alone :
    (fuel addr : ℕ) (key : Bytes) (w : Watcher)
    → equal_range key w ≡ []
    → wait_search (suc fuel) addr (equal_range key (add_key addr key w))
      ≡ some (some (record { addr = addr; key = key; status = pending }))
unfolding wait_search equal_range add_key
wait_search_alone fuel addr key [] h = ground (arith, same_key_refl key)
wait_search_alone fuel addr key (e ∷ w) h = ground (arith, wait_search_alone fuel addr key w)

-- When the first thread in line for a key waits with its bytes at another address, waitKey of a
-- later one never ends its search, whatever the fuel.
pub wait_search_spins :
    (fuel addr : ℕ) (e : Waiting) (range : List Waiting)
    → e.addr ≢ addr
    → wait_search fuel addr (e ∷ range) ≡ none
unfolding wait_search
wait_search_spins zero addr e range h = refl
wait_search_spins (suc fuel) addr e range h = ground (arith, wait_search_spins fuel addr e range h)
