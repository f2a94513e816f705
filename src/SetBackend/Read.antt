-- ===== src/SetBackend/Read.antt =====
-- exists, length, get and fetch of src/backends/set.cpp.
use mochi_rkv.Prelude.{
  ℕ, ◌+◌, Bool, true, false, not, List, [], ◌∷◌, length, none, some, ltb, ◌==◌, if◌then◌else◌,
}
use mochi_rkv.Common.{
  Bytes, Status, success, migrated, invalid_arg, Ret, returned, fault, Mode, UserMem, size, slice,
  add_size, key_not_found,
}
use mochi_rkv.MapBackend.Read.{push}
use mochi_rkv.SetBackend.{SetDatabase, Wake, look, after_look}
use mochi_rkv.SetBackend.Write.{erase}

-- The size of the value: 0, or KeyNotFound.
abbrev pub empty_size : Bool → ℕ
empty_size true = 0
empty_size false = key_not_found

abbrev pub found_itself : Bool → Bool
found_itself found = found

module _ {ℓ} {O : Type ℓ} (mode : Mode) (keys : UserMem) (out : Bool → O) where
  -- The loop that `exists` and `length` share.
  unfoldable pub each_key : ℕ → List ℕ → List Wake → SetDatabase → Ret × List O × SetDatabase
  each_key offset [] ws s = (returned success, [], s)
  each_key offset (n ∷ ksizes) ws s =
      let rest = each_key (add_size offset n) ksizes in
      if ltb (size keys) (add_size offset n)
      then (returned invalid_arg, [], s)
      else elim (slice keys.bytes offset n) [
        | none ↦ (fault, [], s)
        | some key ↦
            after_look (look mode.wait (keys.addr + offset) key ws s) []
              λ found ws' s'. push (out found) (rest ws' s')
      ]

-- exists: nflags is flags.size; the flags are those that the call writes.
unfoldable pub exists :
    Mode → UserMem → List ℕ → ℕ → List Wake → SetDatabase → Ret × List Bool × SetDatabase
unfolding each_key
exists mode keys ksizes nflags ws s =
    if ltb nflags (length ksizes)
    then (returned invalid_arg, [], s)
    else if s.has_migrated
    then (returned migrated, [], s)
    else each_key mode keys found_itself 0 ksizes ws s

-- length: nvsizes is vsizes.size.
unfoldable pub value_length :
    Mode → UserMem → List ℕ → ℕ → List Wake → SetDatabase → Ret × List ℕ × SetDatabase
unfolding each_key
value_length mode keys ksizes nvsizes ws s =
    if not (length ksizes == nvsizes)
    then (returned invalid_arg, [], s)
    else if s.has_migrated
    then (returned migrated, [], s)
    else each_key mode keys empty_size 0 ksizes ws s

-- The loop of get, which has no bound check.
module _ (mode : Mode) (keys : UserMem) where
  unfoldable pub get_loop : ℕ → List ℕ → List Wake → SetDatabase → Ret × List ℕ × SetDatabase
  get_loop koff [] ws s = (returned success, [], s)
  get_loop koff (n ∷ ksizes) ws s =
      let rest = get_loop (add_size koff n) ksizes in
      elim (slice keys.bytes koff n) [
        | none ↦ (fault, [], s)
        | some key ↦
            after_look (look mode.wait (keys.addr + koff) key ws s) []
              λ found ws' s'. push (empty_size found) (rest ws' s')
      ]

-- Whether a loop ran to its end.
abbrev pub is_success : Ret → Bool
is_success r = elim r [ returned st ↦ elim st [ success ↦ true | _ ↦ false ] | _ ↦ false ]

-- The outcome of `get`: the status, the sizes, whether vals.size is set to 0, and the database.
pub record GetResult : Type 0 where
  pub ret : Ret
  pub sizes : List ℕ
  pub emptied : Bool
  pub after : SetDatabase

-- get, which disregards `packed`. `window` is what other threads do between the two locks of a
-- consuming call, and `later` their wakes of the erasing call.
unfoldable pub get :
    Mode
    → UserMem
    → List ℕ
    → ℕ
    → List Wake
    → (SetDatabase → SetDatabase)
    → List Wake
    → SetDatabase
    → GetResult
unfolding get_loop
get mode keys ksizes nvsizes ws window later s =
    if not (length ksizes == nvsizes)
    then record { ret = returned invalid_arg; sizes = []; emptied = false; after = s }
    else if s.has_migrated
    then record { ret = returned migrated; sizes = []; emptied = false; after = s }
    else (let (r, sizes, s') = get_loop mode keys 0 ksizes ws s in
        if not (is_success r)
        then record { ret = r; sizes = sizes; emptied = false; after = s' }
        else if mode.consume
        then (let (r', u, t) = erase mode keys ksizes later (window s') in
            record { ret = r'; sizes = sizes; emptied = true; after = t })
        else record { ret = r; sizes = sizes; emptied = true; after = s' })

-- fetch, over the callback's own state: it gets each key and the size of its value, and a status that
-- is not OK ends the call.
module _ {T : Type 0} (mode : Mode) (keys : UserMem) (func : T → Bytes → ℕ → Status × T) where
  unfoldable pub fetch_loop : ℕ → List ℕ → List Wake → T → SetDatabase → Ret × T × SetDatabase
  fetch_loop koff [] ws t s = (returned success, t, s)
  fetch_loop koff (n ∷ ksizes) ws t s =
      let rest = fetch_loop (add_size koff n) ksizes in
      elim (slice keys.bytes koff n) [
        | none ↦ (fault, t, s)
        | some key ↦ after_look (look mode.wait (keys.addr + koff) key ws s) t λ found ws' s'.
            (let (st, u) = func t key (empty_size found) in
              elim st [ success ↦ rest ws' u s' | failed ↦ (returned failed, u, s') ])
      ]

  unfoldable pub fetch :
      List ℕ
      → List Wake
      → (SetDatabase → SetDatabase)
      → List Wake
      → T
      → SetDatabase
      → Ret × T × SetDatabase
  unfolding fetch_loop
  fetch ksizes ws window later t s =
      if s.has_migrated
      then (returned migrated, t, s)
      else (let (r, u, s') = fetch_loop 0 ksizes ws t s in
          if not (is_success r)
          then (r, u, s')
          else if mode.consume
          then (let (r', v, s'') = erase mode keys ksizes later (window s') in (r', u, s''))
          else (r, u, s'))
