-- ===== src/MapBackend/Rounds.antt =====
-- The rounds of put, on the map that clients see.
use mochi_rkv.Prelude.{
  ℕ, ◌+◌, ◌<◌, ◌≡◌, refl, ◌∙◌, Bool, false, List, [], ◌∷◌, ◌++◌, length, Option, none, some, arith,
  if◌then◌else◌, length-append,
}
use mathlib.Core.Path.{fun_ext}
use native.Mathlib.Nat.{mod-eq_of_lt}
use mochi_rkv.Common.{
  Bytes, size_mod, success, returned, Mode, UserMem, key_exists, not_found, Status,
}
use mochi_rkv.Bytes.{IsStrictTotal}
use mochi_rkv.OrderedMap
use mochi_rkv.OrderedMap.{find, emplace, modify, IsSorted}
use mochi_rkv.OrderedMap.Lookup.{if_same, or_else, map_value, find-emplace, find-modify}
use mochi_rkv.MapBackend.{MapDatabase}
use mochi_rkv.MapBackend.Write.{PutStep, continue, stop, bad_read, put_key, put_loop, accumulate}
use mochi_rkv.MapBackend.Request.{concat, sizes_of, slice_item, next_offset, later_part}

-- Keys that are not told apart have one value.
pub find_same :
    (cmp : Bytes → Bytes → Bool) (o : IsStrictTotal cmp) (k j : Bytes) (m : OrderedMap.Entries)
    → cmp k j ≡ false
    → cmp j k ≡ false
    → find cmp j m ≡ find cmp k m
find_same cmp o k j m h h' = rw (o.total k j h h')

-- What clients see of a database.
abbrev pub view : MapDatabase → Bytes → Option Bytes
view s k = find s.cmp k s.db

-- The value of a key after it is put: by the flags, the value that it had, and the new one.
abbrev pub put_value : Mode → Option Bytes → Bytes → Option Bytes
put_value mode old v =
    if mode.new_only
    then or_else old v
    else if mode.exist_only
    then map_value (λ w. if mode.append then w ++ v else v) old
    else if mode.append
    then or_else (map_value (λ w. w ++ v) old) v
    else some v

-- The status with which one key that is put alone ends.
abbrev pub put_status : Mode → Option Bytes → Status
put_status mode none =
    if mode.new_only then success else if mode.exist_only then not_found else success
put_status mode (some old) = if mode.new_only then key_exists else success

abbrev pub put_view : Mode → Bytes → Bytes → MapDatabase → (Bytes → Option Bytes)
put_view mode k v s j = if_same s.cmp k j (put_value mode (view s k) v) (view s j)

-- The database that a round goes on with.
abbrev pub after_step : PutStep → MapDatabase → MapDatabase
after_step (continue s') s = s'
after_step (stop st) s = s
after_step bad_read s = s

module _ (mode : Mode) (key v : Bytes) (s : MapDatabase) where
  abbrev pub stepped : MapDatabase
  stepped = after_step (put_key mode false key (some v) s) s

  -- A round of a call with several keys never ends the call.
  pub put_key_continues : put_key mode false key (some v) s ≡ continue stepped
  unfolding put_key
  put_key_continues = ground arith

  pub put_key_cmp : stepped.cmp ≡ s.cmp
  unfolding put_key
  put_key_cmp = ground arith

  pub put_key_migrated : stepped.has_migrated ≡ s.has_migrated
  unfolding put_key
  put_key_migrated = ground arith

  -- It changes the value of its key alone, to the one that the flags say.
  pub put_key_view :
      (o : IsStrictTotal s.cmp) (j : Bytes) → view stepped j ≡ put_view mode key v s j
  unfolding put_key
  put_key_view o j = ground (
    arith,
    find-emplace s.cmp o key j v s.db,
    find-modify s.cmp o key j (λ old. v) s.db,
    find-modify s.cmp o key j (λ old. old ++ v) s.db,
    find_same s.cmp o key j s.db,
  )

-- The abstract put: the keys in turn, each at its flags, on the map that clients see.
abbrev pub put_all :
    (Bytes → Bytes → Bool)
    → Mode
    → List (Bytes × Bytes)
    → (Bytes → Option Bytes)
    → (Bytes → Option Bytes)
put_all cmp mode [] f = f
put_all cmp mode ((k, v) ∷ kvs) f =
    put_all cmp mode kvs (λ j. if_same cmp k j (put_value mode (f k) v) (f j))

abbrev pub keys_of : List (Bytes × Bytes) → List Bytes
keys_of [] = []
keys_of ((k, v) ∷ kvs) = k ∷ keys_of kvs

abbrev pub vals_of : List (Bytes × Bytes) → List Bytes
vals_of [] = []
vals_of ((k, v) ∷ kvs) = v ∷ vals_of kvs

-- The database after the rounds.
abbrev pub put_rounds : Mode → List (Bytes × Bytes) → MapDatabase → MapDatabase
put_rounds mode [] s = s
put_rounds mode ((k, v) ∷ kvs) s = put_rounds mode kvs (stepped mode k v s)

pub view-put_rounds :
    (mode : Mode) (kvs : List (Bytes × Bytes)) (s : MapDatabase)
    → IsStrictTotal s.cmp
    → view (put_rounds mode kvs s) ≡ put_all s.cmp mode kvs (view s)
view-put_rounds mode [] s o = refl
view-put_rounds mode ((k, v) ∷ kvs) s o =
    view-put_rounds mode kvs (stepped mode k v s) (rw (put_key_cmp mode k v s) o)
    ∙ (λ i. put_all (put_key_cmp mode k v s i) mode kvs (fun_ext (put_key_view mode k v s o) i))

module _ (mode : Mode) (keys vals : UserMem) (short : length keys.bytes < size_mod)
    (vshort : length vals.bytes < size_mod) where
  pub put_loop_lem :
      (kb vb : Bytes) (kvs : List (Bytes × Bytes)) (s : MapDatabase)
      → keys.bytes ≡ kb ++ concat (keys_of kvs)
      → vals.bytes ≡ vb ++ concat (vals_of kvs)
      → put_loop mode false keys vals
          (length kb)
          (length vb)
          (sizes_of (keys_of kvs))
          (sizes_of (vals_of kvs))
          s
        ≡ (returned success, put_rounds mode kvs s)
  unfolding put_loop
  put_loop_lem kb vb [] s e f = refl
  put_loop_lem kb vb ((k, v) ∷ kvs) s e f =
      let ks = concat (keys_of kvs) in
      let vs = concat (vals_of kvs) in
      rw (slice_item keys.bytes kb k ks e, put_loop)
        (rw (slice_item vals.bytes vb v vs f) (
          rw (put_key_continues mode k v s) (
            rw (next_offset keys.bytes kb k ks e short) (
              rw (next_offset vals.bytes vb v vs f vshort) (
                put_loop_lem (kb ++ k) (vb ++ v) kvs (stepped mode k v s)
                  (later_part keys.bytes kb k ks e) (later_part vals.bytes vb v vs f))))))

pub accumulate_lem :
    (acc : ℕ) (ks : List Bytes)
    → acc + length (concat ks) < size_mod
    → accumulate acc (sizes_of ks) ≡ acc + length (concat ks)
unfolding accumulate
accumulate_lem acc [] h = omega arith
accumulate_lem acc (k ∷ ks) h =
    rw
      (
        mod-eq_of_lt {n = acc + length k} {m = size_mod}
            (omega (arith, length-append k (concat ks))),
        accumulate,
      )
      (omega (
        arith,
        accumulate_lem (acc + length k) ks (omega (arith, length-append k (concat ks))),
        length-append k (concat ks),
      ))
