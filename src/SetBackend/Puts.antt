-- ===== src/SetBackend/Puts.antt =====
-- put of the set database against that of the map database with empty values.
use mochi_rkv.Prelude.{
  ℕ, suc, ◌+◌, ◌<◌, ◌≡◌, refl, sym, ap, ◌∙◌, Bool, true, false, ◌&&◌, List, [], ◌∷◌, ◌++◌, length,
  some, arith, ◌==◌, ==_iff, le→ltb, if◌then◌else◌,
}
use mochi_rkv.Common.{Bytes, size_mod, Mode, UserMem, success, key_exists, not_found, Ret, returned}
use mochi_rkv.OrderedMap
use mochi_rkv.OrderedSet.{contains, emplace, with_empty}
use mochi_rkv.MapBackend.Request.{
  concat, sizes_of, length-sizes_of, slice_item, next_offset, later_part,
}
use mochi_rkv.MapBackend.Lookups.{keys_at}
use mochi_rkv.MapBackend.Rounds.{
  keys_of, vals_of, stepped, put_rounds, accumulate_lem, put_loop_lem,
}
use mochi_rkv.MapBackend.Writes.{put_pairs, put_runs, put_loop_one, ended}
use mochi_rkv.MapBackend.Write.{put_key}
use mochi_rkv.MapBackend.Write as MapWrite
use mochi_rkv.SetBackend.{SetDatabase, as_map}
use mochi_rkv.SetBackend.Write.{put_loop, put, put_exist_only, put_new_only}
use mochi_rkv.SetBackend.Embedding.{find-with_empty, emplace-with_empty}

abbrev pub empty_at : ℕ → UserMem
empty_at b = record { addr = b; bytes = [] }

abbrev pub zeros : List Bytes → List ℕ
zeros [] = []
zeros (k ∷ ks) = 0 ∷ zeros ks

-- The database with these keys too.
abbrev pub insert_all : List Bytes → SetDatabase → SetDatabase
insert_all [] s = s
insert_all (k ∷ ks) s = insert_all ks (record s { db = emplace s.cmp k s.db })

-- A key that is there is not put again.
emplace_there :
    (cmp : Bytes → Bytes → Bool) (k : Bytes) (l : List Bytes)
    → contains cmp k l ≡ true
    → emplace cmp k l ≡ l
unfolding contains emplace
emplace_there cmp k [] h = cc
emplace_there cmp k (j ∷ l) h = ground (arith, emplace_there cmp k l)

modify-with_empty :
    (cmp : Bytes → Bytes → Bool) (k : Bytes) (f : Bytes → Bytes) (l : List Bytes)
    → f [] ≡ []
    → OrderedMap.modify cmp k f (with_empty l) ≡ with_empty l
unfolding OrderedMap.modify
modify-with_empty cmp k f [] h = refl
modify-with_empty cmp k f (j ∷ l) h = ground (arith, modify-with_empty cmp k f l h)

-- What a put of keys comes to, without NOTIFY: a call with one key may be refused.
abbrev pub put_outcome : Mode → List Bytes → SetDatabase → Ret × SetDatabase
put_outcome mode (k ∷ []) s =
    if mode.exist_only
    then (returned (if contains s.cmp k s.db then success else not_found), s)
    else if mode.new_only
    then if contains s.cmp k s.db
      then (returned key_exists, s)
      else (returned success, insert_all (k ∷ []) s)
    else (returned success, insert_all (k ∷ []) s)
put_outcome mode ks s =
    if mode.exist_only then (returned success, s) else (returned success, insert_all ks s)

module _ (mode : Mode) (quiet : mode.wait ≡ false) where
  stepped-as_map :
      (k : Bytes) (s : SetDatabase)
      → (mode.new_only && mode.exist_only) ≡ false
      → stepped mode k [] (as_map s) ≡ as_map (if mode.exist_only then s else insert_all (k ∷ []) s)
  unfolding put_key
  stepped-as_map k s one = ground (
    arith,
    find-with_empty s.cmp k s.db,
    emplace-with_empty s.cmp k s.db,
    emplace_there s.cmp k s.db,
    modify-with_empty s.cmp k (λ old. []) s.db,
    modify-with_empty s.cmp k (λ old. old ++ []) s.db,
  )

  ended-as_map :
      (k : Bytes) (s : SetDatabase)
      → (mode.new_only && mode.exist_only) ≡ false
      → ended (put_key mode true k (some []) (as_map s)) (as_map s)
        ≡ ((put_outcome mode (k ∷ []) s).0, as_map (put_outcome mode (k ∷ []) s).1)
  unfolding put_key
  ended-as_map k s one = ground (
    arith,
    find-with_empty s.cmp k s.db,
    emplace-with_empty s.cmp k s.db,
    emplace_there s.cmp k s.db,
    modify-with_empty s.cmp k (λ old. []) s.db,
    modify-with_empty s.cmp k (λ old. old ++ []) s.db,
  )

  put_rounds-as_map :
      (ks : List Bytes) (s : SetDatabase)
      → (mode.new_only && mode.exist_only) ≡ false
      → put_rounds mode (with_empty ks) (as_map s)
        ≡ as_map (if mode.exist_only then s else insert_all ks s)
  put_rounds-as_map [] s one = ground arith
  put_rounds-as_map (k ∷ ks) s one =
      ap (put_rounds mode (with_empty ks)) (stepped-as_map k s one)
      ∙ put_rounds-as_map ks (if mode.exist_only then s else insert_all (k ∷ []) s) one
      ∙ ground arith

  -- The loop of put without NOTIFY.
  put_loop_lem' :
      (keys : UserMem) (before : Bytes) (ks : List Bytes) (s : SetDatabase)
      → length keys.bytes < size_mod
      → keys.bytes ≡ before ++ concat ks
      → put_loop mode keys (length before) (sizes_of ks) s ≡ (returned success, insert_all ks s)
  unfolding put_loop
  put_loop_lem' keys before [] s short e = refl
  put_loop_lem' keys before (k ∷ ks) s short e =
      rw (slice_item keys.bytes before k (concat ks) e, put_loop)
        (rw quiet (
          rw (next_offset keys.bytes before k (concat ks) e short) (
            put_loop_lem' keys (before ++ k) ks (insert_all (k ∷ []) s) short
              (later_part keys.bytes before k (concat ks) e))))

keys_of-with_empty : (ks : List Bytes) → keys_of (with_empty ks) ≡ ks
keys_of-with_empty [] = refl
keys_of-with_empty (k ∷ ks) = ap (◌∷◌ k) (keys_of-with_empty ks)

concat-with_empty : (ks : List Bytes) → concat (vals_of (with_empty ks)) ≡ []
concat-with_empty [] = refl
concat-with_empty (k ∷ ks) = concat-with_empty ks

sizes_of-with_empty : (ks : List Bytes) → sizes_of (vals_of (with_empty ks)) ≡ zeros ks
sizes_of-with_empty [] = refl
sizes_of-with_empty (k ∷ ks) = ap (◌∷◌ 0) (sizes_of-with_empty ks)

accumulate-zeros : (ks : List Bytes) → MapWrite.accumulate 0 (zeros ks) ≡ 0
unfolding MapWrite.accumulate
accumulate-zeros [] = refl
accumulate-zeros (k ∷ ks) = accumulate-zeros ks

length-zeros : (ks : List Bytes) → length (zeros ks) ≡ length ks
length-zeros [] = refl
length-zeros (k ∷ ks) = ap suc (length-zeros ks)

-- The call that puts these keys.
abbrev pub put_keys : Mode → ℕ → ℕ → List Bytes → SetDatabase → Ret × SetDatabase
put_keys mode a b ks s = put mode (keys_at a ks) (sizes_of ks) (empty_at b) (zeros ks) s

module _ (mode : Mode) (a b : ℕ) (s : SetDatabase) (quiet : mode.wait ≡ false)
    (one : (mode.new_only && mode.exist_only) ≡ false) (here : s.has_migrated ≡ false) where
  set_branches :
      (ks : List Bytes)
      → length (concat ks) < size_mod
      → (if mode.exist_only
          then put_exist_only (keys_at a ks) (sizes_of ks) s
          else if mode.new_only
          then put_new_only mode (keys_at a ks) (sizes_of ks) s
          else put_loop mode (keys_at a ks) 0 (sizes_of ks) s)
        ≡ put_outcome mode ks s
  unfolding put_exist_only put_new_only
  set_branches [] short = ground (arith, put_loop_lem' mode quiet (keys_at a []) [] [] s short refl)
  set_branches (k ∷ []) short = ground (
    arith,
    put_loop_lem' mode quiet (keys_at a (k ∷ [])) [] (k ∷ []) s short refl,
    slice_item (k ++ []) [] k [] refl,
  )
  set_branches (k ∷ k' ∷ ks) short =
      ground
        (arith, put_loop_lem' mode quiet (keys_at a (k ∷ k' ∷ ks)) [] (k ∷ k' ∷ ks) s short refl)

  map_runs :
      (ks : List Bytes)
      → length (concat ks) < size_mod
      → (length ks == 1) ≡ false
      → put_pairs mode a b (with_empty ks) (as_map s)
        ≡ (returned success, as_map (if mode.exist_only then s else insert_all ks s))
  map_runs ks short several =
      let kvs = with_empty ks in
      let kshort : length (concat (keys_of kvs)) < size_mod = rw (keys_of-with_empty ks) short in
      let vshort : length (concat (vals_of kvs)) < size_mod =
        rw (concat-with_empty ks) (omega arith) in
      let n : (length (sizes_of (keys_of kvs)) == 1) ≡ false =
        rw (keys_of-with_empty ks) (rw (length-sizes_of ks) several) in
      put_runs mode a b kvs (as_map s) here kshort vshort
      ∙ rw n (
          put_loop_lem mode (keys_at a (keys_of kvs)) (keys_at b (vals_of kvs)) kshort vshort [] []
            kvs (as_map s) refl refl)
      ∙ ap (λ m. (returned success, m)) (put_rounds-as_map mode quiet ks s one)

  map_outcome :
      (ks : List Bytes)
      → length (concat ks) < size_mod
      → put_pairs mode a b (with_empty ks) (as_map s)
        ≡ ((put_outcome mode ks s).0, as_map (put_outcome mode ks s).1)
  map_outcome [] short = map_runs [] short refl ∙ ground arith
  map_outcome (k ∷ []) short =
      put_runs mode a b ((k, []) ∷ []) (as_map s) here short (omega arith)
      ∙ put_loop_one mode k [] (as_map s) a b
      ∙ ended-as_map mode quiet k s one
  map_outcome (k ∷ k' ∷ ks) short = map_runs (k ∷ k' ∷ ks) short (ground arith) ∙ ground arith

  set_outcome :
      (ks : List Bytes)
      → length (concat ks) < size_mod
      → put_keys mode a b ks s ≡ put_outcome mode ks s
  unfolding put put_exist_only put_new_only
  set_outcome ks short =
      rw
        ((==_iff (length (sizes_of ks)) (length (zeros ks))).1
          (omega (arith, length-sizes_of ks, length-zeros ks)))
        (rw (accumulate_lem 0 ks (omega arith)) (
          rw (le→ltb (length (concat ks)) (0 + length (concat ks)) (omega arith))
            (rw (accumulate-zeros ks) (simp here (set_branches ks short)))))

  -- A put of keys without values and without NOTIFY, not with both NEW_ONLY and EXIST_ONLY, of less
  -- than 2 ^ 64 bytes to a database that has not migrated: the set database ends with the status of the
  -- map database that holds the same keys with empty values, and holds its keys afterwards.
  pub put-as_map :
      (ks : List Bytes)
      → length (concat ks) < size_mod
      → MapWrite.put mode (keys_at a ks) (sizes_of ks) (empty_at b) (zeros ks) (as_map s)
        ≡ ((put_keys mode a b ks s).0, as_map (put_keys mode a b ks s).1)
  put-as_map ks short =
      let e = map_outcome ks short in
      rw (keys_of-with_empty ks, concat-with_empty ks, sizes_of-with_empty ks) at e
      ∙ ap (λ (x : Ret × SetDatabase). (x.0, as_map x.1)) (sym (set_outcome ks short))
