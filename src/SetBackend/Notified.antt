-- ===== src/SetBackend/Notified.antt =====
-- Whom put of the set database wakes: it notifies behind `key_offset += ksizes[i]`.
use mochi_rkv.Prelude.{
  ℕ, ◌+◌, ◌<◌, ◌≤◌, ◌≡◌, ◌≢◌, refl, sym, ap, ◌∙◌, true, false, [], ◌∷◌, ◌++◌, length, some, none,
  arith, le→ltb, lt→ltb, length-append,
}
use mathlib.Core.List.{append-nil}
use mochi_rkv.Common.{
  Bytes, size_mod, Mode, UserMem, slice, add_size, success, Ret, returned, fault,
}
use mochi_rkv.OrderedSet.{emplace}
use mochi_rkv.Watcher.{Waiting, Watcher, notify_key, equal_range}
use mochi_rkv.Watcher.Laws.{notify_key_others}
use mochi_rkv.MapBackend.Request.{slice_item}
use mochi_rkv.MapBackend.Write.{accumulate}
use mochi_rkv.SetBackend.{SetDatabase}
use mochi_rkv.SetBackend.Write.{notified, put_loop, put}
use mochi_rkv.SetBackend.Puts.{empty_at}

notified_lem :
    (keys : UserMem) (offset n : ℕ) (j : Bytes) (w : Watcher)
    → slice keys.bytes offset n ≡ some j
    → notified keys offset n w ≡ some (notify_key j w)
unfolding notified notify_key
notified_lem keys offset n j [] h = refl
notified_lem keys offset n j (e ∷ w) h = rw (h, notified) refl

-- put of the one key k, with NOTIFY, from a buffer with these bytes.
abbrev pub put_key_of : Mode → ℕ → ℕ → Bytes → Bytes → SetDatabase → Ret × SetDatabase
put_key_of mode a b k bytes s =
    put mode (record { addr = a; bytes = bytes }) (length k ∷ []) (empty_at b) (0 ∷ []) s

module _ (mode : Mode) (a b : ℕ) (k : Bytes) (s : SetDatabase) (loud : mode.wait ≡ true)
    (any : mode.exist_only ≡ false) (old : mode.new_only ≡ false)
    (here : s.has_migrated ≡ false) where
  put_runs :
      (bytes : Bytes)
      → length k ≤ length bytes
      → length bytes < size_mod
      → put_key_of mode a b k bytes s
        ≡ put_loop mode (record { addr = a; bytes = bytes }) 0 (length k ∷ []) s
  unfolding put accumulate
  put_runs bytes fits short =
      let e : add_size 0 (length k) ≡ length k = omega arith in
      rw e (rw (le→ltb (length bytes) (length k) (omega arith)) (simp (here, any, old)))

  -- The key of the request is stored, but the thread that is notified is one that waits for the bytes
  -- behind it.
  passes :
      (other rest : Bytes)
      → length (k ++ (other ++ rest)) < size_mod
      → length other ≡ length k
      → put_key_of mode a b k (k ++ (other ++ rest)) s ≡ (
        returned success,
        record s { db = emplace s.cmp k s.db; watcher = notify_key other s.watcher },
      )
  unfolding put_loop
  passes other rest short same =
      let bytes = k ++ (other ++ rest) in
      let len = length-append k (other ++ rest) in
      let e : add_size 0 (length k) ≡ length k = omega (arith, len) in
      let found : slice bytes (length k) (length k) ≡ some other =
        ap (slice bytes (length k)) (sym same) ∙ slice_item bytes k other rest refl in
      put_runs bytes (omega (arith, len)) short
      ∙ ground (
        arith,
        loud,
        slice_item bytes [] k (other ++ rest) refl,
        e,
        found,
        notified_lem (record { addr = a; bytes = bytes }) (length k) (length k) other s.watcher,
      )

  stops :
      (e : Waiting) (w : Watcher)
      → length k < size_mod
      → 1 ≤ length k
      → s.watcher ≡ e ∷ w
      → (put_key_of mode a b k k s).0 ≡ fault
  unfolding put_loop notified slice
  stops e w short some_bytes waits =
      let z : add_size 0 (length k) ≡ length k = omega arith in
      let past : slice k (length k) (length k) ≡ none =
        rw (lt→ltb (length k) (length k + length k) (omega arith)) refl in
      ap (λ (x : Ret × SetDatabase). x.0) (put_runs k (omega arith) short)
      ∙ ground (arith, loud, slice_item k [] k [] (sym (append-nil k)), z, waits, past)

  -- A put of one key with NOTIFY, without NEW_ONLY and EXIST_ONLY, to a database that has not
  -- migrated. Where as many bytes of another key stand behind it in the buffer, the put succeeds and no
  -- thread that waits for the key of the request is woken; where the buffer ends with the key and some
  -- thread waits for any key, the put reads outside of the buffer.
  pub notify_misses :
      1 ≤ length k
      → ((other rest : Bytes)
          → length (k ++ (other ++ rest)) < size_mod
          → length other ≡ length k
          → k ≢ other
          → ((put_key_of mode a b k (k ++ (other ++ rest)) s).0 ≡ returned success)
            × (equal_range k (put_key_of mode a b k (k ++ (other ++ rest)) s).1.watcher
                ≡ equal_range k s.watcher))
        × ((e : Waiting) (w : Watcher)
            → length k < size_mod
            → s.watcher ≡ e ∷ w
            → (put_key_of mode a b k k s).0 ≡ fault)
  notify_misses some_bytes = (
    λ other rest short same apart. (
      ap (λ (x : Ret × SetDatabase). x.0) (passes other rest short same),
      ap (λ (x : Ret × SetDatabase). equal_range k x.1.watcher) (passes other rest short same)
          ∙ notify_key_others other k s.watcher (λ h. apart (sym h)),
    ),
    λ e w short waits. stops e w short some_bytes waits,
  )
