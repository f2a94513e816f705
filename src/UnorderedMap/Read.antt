-- ===== src/UnorderedMap/Read.antt =====
-- exists, length, get and fetch of src/backends/unordered_map.cpp.
use mochi_rkv.Prelude.{
  ℕ, ◌+◌, ◌-◌, Bool, true, false, not, List, [], ◌∷◌, length, Option, none, some, ltb, ◌==◌,
  if◌then◌else◌,
}
use mochi_rkv.Common.{
  Bytes, Status, success, migrated, invalid_arg, Ret, returned, fault, Mode, UserMem, size, slice,
  add_size,
}
use mochi_rkv.MapBackend.{after_look}
use mochi_rkv.MapBackend.Read.{is_some, value_size, push, Slot, got, packed_round}
use mochi_rkv.UnorderedMap.{UnorderedMapDatabase, Wake, look}
use mochi_rkv.UnorderedMap.Write.{erase}

module _ {ℓ} {O : Type ℓ} (mode : Mode) (keys : UserMem) (out : Option Bytes → O) where
  -- The loop that `exists` and `length` share: the bound check, the lookup, the output of key i.
  unfoldable pub each_key :
      ℕ → List ℕ → List Wake → UnorderedMapDatabase → Ret × List O × UnorderedMapDatabase
  each_key offset [] ws s = (returned success, [], s)
  each_key offset (n ∷ ksizes) ws s =
      let rest = each_key (add_size offset n) ksizes in
      if ltb (size keys) (add_size offset n)
      then (returned invalid_arg, [], s)
      else elim (slice keys.bytes offset n) [
        | none ↦ (fault, [], s)
        | some key ↦
            after_look (look mode.wait (keys.addr + offset) key ws s) []
              λ found ws' s'. push (out found) (rest ws' s')
      ]

-- exists: nflags is flags.size; the flags are those that the call writes.
unfoldable pub exists :
    Mode
    → UserMem
    → List ℕ
    → ℕ
    → List Wake
    → UnorderedMapDatabase
    → Ret × List Bool × UnorderedMapDatabase
unfolding each_key
exists mode keys ksizes nflags ws s =
    if ltb nflags (length ksizes)
    then (returned invalid_arg, [], s)
    else if s.has_migrated
    then (returned migrated, [], s)
    else each_key mode keys is_some 0 ksizes ws s

-- length: nvsizes is vsizes.size.
unfoldable pub value_length :
    Mode
    → UserMem
    → List ℕ
    → ℕ
    → List Wake
    → UnorderedMapDatabase
    → Ret × List ℕ × UnorderedMapDatabase
unfolding each_key
value_length mode keys ksizes nvsizes ws s =
    if not (length ksizes == nvsizes)
    then (returned invalid_arg, [], s)
    else if s.has_migrated
    then (returned migrated, [], s)
    else each_key mode keys value_size 0 ksizes ws s

module _ (mode : Mode) (keys : UserMem) where
  -- get, not packed: the sizes hold the room for each value.
  unfoldable pub get_each :
      ℕ
      → ℕ
      → List ℕ
      → List ℕ
      → List Wake
      → UnorderedMapDatabase
      → Ret × List Slot × UnorderedMapDatabase
  get_each koff voff (n ∷ ksizes) (room ∷ vsizes) ws s =
      let rest = get_each (add_size koff n) (add_size voff room) ksizes vsizes in
      elim (slice keys.bytes koff n) [
        | none ↦ (fault, [], s)
        | some key ↦
            after_look (look mode.wait (keys.addr + koff) key ws s) []
              λ found ws' s'. push (got voff room found) (rest ws' s')
      ]
  get_each koff voff _ _ ws s = (returned success, [], s)

  -- get, packed, with the rounds of the map backend. Beside the slots it returns the room that is left
  -- at the end.
  unfoldable pub get_packed :
      ℕ
      → ℕ
      → ℕ
      → Bool
      → List ℕ
      → List Wake
      → UnorderedMapDatabase
      → Ret × (List Slot × ℕ) × UnorderedMapDatabase
  get_packed koff voff room small [] ws s = (returned success, ([], room), s)
  get_packed koff voff room small (n ∷ ksizes) ws s =
      let rest = λ (v r : ℕ) (b : Bool). get_packed (add_size koff n) v r b ksizes in
      elim (slice keys.bytes koff n) [
        | none ↦ (fault, ([], room), s)
        | some key ↦
            after_look (look mode.wait (keys.addr + koff) key ws s) ([], room)
              λ found ws' s'. packed_round voff room small (λ v r b. rest v r b ws' s') found
      ]

-- Whether a loop ran to its end.
abbrev pub is_success : Ret → Bool
is_success r = elim r [ returned st ↦ elim st [ success ↦ true | _ ↦ false ] | _ ↦ false ]

-- if(mode & YOKAN_MODE_CONSUME) { lock.unlock(); return erase(mode, keys, ksizes); }, behind a loop that
-- ran to its end. `window` is what other threads do between the two locks, and `later` their wakes of
-- the erasing call.
unfoldable pub consumed {ℓ} :
    {O : Type ℓ}
    → Mode
    → UserMem
    → List ℕ
    → (UnorderedMapDatabase → UnorderedMapDatabase)
    → List Wake
    → Ret × O × UnorderedMapDatabase
    → Ret × O × UnorderedMapDatabase
consumed mode keys ksizes window later (r, o, s) =
    if not (is_success r)
    then (r, o, s)
    else if mode.consume
    then (let (r', u, t) = erase mode keys ksizes later (window s) in (r', o, t))
    else (r, o, s)

-- The outcome of `get`: the status, the slots, vals.size where the call sets it, and the database.
pub record GetResult : Type 0 where
  pub ret : Ret
  pub slots : List Slot
  pub vals_size : Option ℕ
  pub after : UnorderedMapDatabase

-- The end of get: a loop that did not run to its end returned at once, before vals.size was set.
unfoldable pub finished :
    Mode
    → UserMem
    → List ℕ
    → (UnorderedMapDatabase → UnorderedMapDatabase)
    → List Wake
    → Option ℕ
    → Ret × List Slot × UnorderedMapDatabase
    → GetResult
unfolding consumed
finished mode keys ksizes window later vals_size (r, slots, s) =
    let (r', o, t) = consumed mode keys ksizes window later (r, slots, s) in
    record { ret = r'; slots = o; vals_size = if is_success r then vals_size else none; after = t }

unfoldable pub get :
    Mode
    → Bool
    → UserMem
    → List ℕ
    → ℕ
    → List ℕ
    → List Wake
    → (UnorderedMapDatabase → UnorderedMapDatabase)
    → List Wake
    → UnorderedMapDatabase
    → GetResult
unfolding get_each get_packed finished
get mode packed keys ksizes vals_size vsizes ws window later s =
    if not (length ksizes == length vsizes)
    then record { ret = returned invalid_arg; slots = []; vals_size = none; after = s }
    else if s.has_migrated
    then record { ret = returned migrated; slots = []; vals_size = none; after = s }
    else if packed
    then (let (r, (slots, room), s') = get_packed mode keys 0 0 vals_size false ksizes ws s in
        finished mode keys ksizes window later (some (vals_size - room)) (r, slots, s'))
    else finished mode keys ksizes window later none (get_each mode keys 0 0 ksizes vsizes ws s)

-- fetch, over the callback's own state: it gets each key and its value, none for the null value of size
-- KeyNotFound, and a status that is not OK ends the call.
module _ {T : Type 0} (mode : Mode) (keys : UserMem)
    (func : T → Bytes → Option Bytes → Status × T) where
  unfoldable pub fetch_loop :
      ℕ → List ℕ → List Wake → T → UnorderedMapDatabase → Ret × T × UnorderedMapDatabase
  fetch_loop koff [] ws t s = (returned success, t, s)
  fetch_loop koff (n ∷ ksizes) ws t s =
      let rest = fetch_loop (add_size koff n) ksizes in
      elim (slice keys.bytes koff n) [
        | none ↦ (fault, t, s)
        | some key ↦ after_look (look mode.wait (keys.addr + koff) key ws s) t λ found ws' s'.
            (let (st, u) = func t key found in
              elim st [ success ↦ rest ws' u s' | failed ↦ (returned failed, u, s') ])
      ]

  unfoldable pub fetch :
      List ℕ
      → List Wake
      → (UnorderedMapDatabase → UnorderedMapDatabase)
      → List Wake
      → T
      → UnorderedMapDatabase
      → Ret × T × UnorderedMapDatabase
  unfolding fetch_loop consumed
  fetch ksizes ws window later t s =
      if s.has_migrated
      then (returned migrated, t, s)
      else consumed mode keys ksizes window later (fetch_loop 0 ksizes ws t s)
