-- ===== src/MapBackend/Writes.antt =====
-- What put and erase do to the map that clients see, on well-formed requests.
use mochi_rkv.Prelude.{
  ℕ, suc, ◌+◌, ◌<◌, ◌≡◌, ◌≢◌, refl, ap, ◌∙◌, true, false, List, [], ◌∷◌, ◌++◌, length, some, arith,
  le→ltb, ==_iff, ◌==◌,
}
use mochi_rkv.Common.{Bytes, size_mod, success, returned, fault, Mode, Ret}
use mochi_rkv.Bytes.{IsStrictTotal}
use mochi_rkv.OrderedMap.Lookup.{find-emplace, find-modify}
use mochi_rkv.MapBackend.{MapDatabase}
use mochi_rkv.MapBackend.Write.{PutStep, continue, stop, bad_read, put_key, put_loop, put}
use mochi_rkv.MapBackend.Request.{concat, sizes_of, slice_item}
use mochi_rkv.MapBackend.Lookups.{keys_at}
use mochi_rkv.MapBackend.Rounds.{
  view, put_all, put_view, put_status, put_rounds, keys_of, vals_of, view-put_rounds, put_loop_lem,
  accumulate_lem, find_same,
}

length_keys_vals :
    (kvs : List (Bytes × Bytes)) → length (sizes_of (keys_of kvs)) ≡ length (sizes_of (vals_of kvs))
length_keys_vals [] = refl
length_keys_vals (kv ∷ kvs) = ap suc (length_keys_vals kvs)

length_keys : (kvs : List (Bytes × Bytes)) → length (sizes_of (keys_of kvs)) ≡ length kvs
length_keys [] = refl
length_keys (kv ∷ kvs) = ap suc (length_keys kvs)

-- The call that puts these pairs, their keys at one address and their values at another.
abbrev pub put_pairs : Mode → ℕ → ℕ → List (Bytes × Bytes) → MapDatabase → Ret × MapDatabase
put_pairs mode a b kvs s =
    put mode (keys_at a (keys_of kvs)) (sizes_of (keys_of kvs)) (keys_at b (vals_of kvs))
      (sizes_of (vals_of kvs)) s

module _ (mode : Mode) (a b : ℕ) (kvs : List (Bytes × Bytes)) (s : MapDatabase)
    (here : s.has_migrated ≡ false) (short : length (concat (keys_of kvs)) < size_mod)
    (vshort : length (concat (vals_of kvs)) < size_mod) where
  -- The checks of put pass on a well-formed request, and its rounds are run.
  pub put_runs :
      put_pairs mode a b kvs s
      ≡ put_loop mode
          (length (sizes_of (keys_of kvs)) == 1)
          (keys_at a (keys_of kvs))
          (keys_at b (vals_of kvs))
          0
          0
          (sizes_of (keys_of kvs))
          (sizes_of (vals_of kvs))
          s
  unfolding put
  put_runs =
      rw
        ((==_iff (length (sizes_of (keys_of kvs))) (length (sizes_of (vals_of kvs)))).1
          (length_keys_vals kvs))
        (rw (accumulate_lem 0 (keys_of kvs) (omega arith)) (
          rw
            (le→ltb (length (concat (keys_of kvs))) (0 + length (concat (keys_of kvs)))
              (omega arith))
            (rw (accumulate_lem 0 (vals_of kvs) (omega arith)) (
              rw
                (le→ltb (length (concat (vals_of kvs))) (0 + length (concat (vals_of kvs)))
                  (omega arith))
                (simp here)))))

  -- A call with other than one pair succeeds, and clients see the pairs put in turn, each by the
  -- flags of the mode.
  pub put_many :
      IsStrictTotal s.cmp
      → length kvs ≢ 1
      → (put_pairs mode a b kvs s ≡ (returned success, put_rounds mode kvs s))
        × (view (put_rounds mode kvs s) ≡ put_all s.cmp mode kvs (view s))
  put_many o several = (
    put_runs
        ∙ rw (not_one (length kvs) several) (
            put_loop_lem mode (keys_at a (keys_of kvs)) (keys_at b (vals_of kvs)) short vshort [] []
              kvs s refl refl),
    view-put_rounds mode kvs s o,
  )
    where
      not_one : (n : ℕ) → n ≢ 1 → (length (sizes_of (keys_of kvs)) == 1) ≡ false
      not_one n h = rw (length_keys kvs) (ground arith)

-- How a call with one pair ends.
abbrev pub ended : PutStep → MapDatabase → Ret × MapDatabase
ended (continue s') s = (returned success, s')
ended (stop st) s = (returned st, s)
ended bad_read s = (fault, s)

module _ (mode : Mode) (k v : Bytes) (s : MapDatabase) where
  ended_status :
      (ended (put_key mode true k (some v) s) s).0 ≡ returned (put_status mode (view s k))
  unfolding put_key
  ended_status = ground arith

  view-ended :
      (o : IsStrictTotal s.cmp) (j : Bytes)
      → view (ended (put_key mode true k (some v) s) s).1 j ≡ put_view mode k v s j
  unfolding put_key
  view-ended o j = ground (
    arith,
    find-emplace s.cmp o k j v s.db,
    find-modify s.cmp o k j (λ old. v) s.db,
    find-modify s.cmp o k j (λ old. old ++ v) s.db,
    find_same s.cmp o k j s.db,
  )

  pub put_loop_one :
      (a b : ℕ)
      → put_loop mode true
          (keys_at a (k ∷ []))
          (keys_at b (v ∷ []))
          0
          0
          (length k ∷ [])
          (length v ∷ [])
          s
        ≡ ended (put_key mode true k (some v) s) s
  unfolding put_loop
  put_loop_one a b =
      rw (slice_item (k ++ []) [] k [] refl, put_loop)
        (rw (slice_item (v ++ []) [] v [] refl) (ground arith))

  -- A call with one pair, to a database that has not migrated: it ends with KeyExists if NEW_ONLY
  -- is set and the key is there, with NotFound if EXIST_ONLY is set, NEW_ONLY is not, and the key
  -- is not there, and with success otherwise; clients see the key with the value that the flags
  -- say, and the other keys as they were.
  pub put_one :
      (a b : ℕ)
      → s.has_migrated ≡ false
      → length (concat (k ∷ [])) < size_mod
      → length (concat (v ∷ [])) < size_mod
      → IsStrictTotal s.cmp
      → ((put_pairs mode a b ((k, v) ∷ []) s).0 ≡ returned (put_status mode (view s k)))
        × ((j : Bytes) → view (put_pairs mode a b ((k, v) ∷ []) s).1 j ≡ put_view mode k v s j)
  put_one a b here short vshort o =
      let run = put_runs mode a b ((k, v) ∷ []) s here short vshort ∙ put_loop_one a b in
      (rw run ended_status, λ j. rw run (view-ended o j))
