-- ===== src/Watcher/Tests.antt =====
-- The watcher's theorems at two threads.
use mochi_rkv.Prelude.{◌≡◌, [], ◌∷◌, none, arith}
use mochi_rkv.Watcher.{Waiting, pending, wait_search}
use mochi_rkv.Watcher.Laws.{wait_search_spins}

-- A thread that waits for the key 5, its bytes at address 10.
abbrev first : Waiting
first = record { addr = 10; key = 5 ∷ []; status = pending }

wait_search_spins_example : wait_search 1000 20 (first ∷ []) ≡ none
wait_search_spins_example = wait_search_spins 1000 20 first [] (omega arith)
