-- ===== src/MapBackend/Read.antt =====
-- exists, length, get and fetch of src/backends/map.cpp.
use mochi_rkv.Prelude.{
  ℕ, ◌+◌, ◌-◌, Bool, true, false, not, List, [], ◌∷◌, length, Option, none, some, ltb, ◌==◌,
  if◌then◌else◌,
}
use mochi_rkv.Common.{
  Bytes, success, migrated, invalid_arg, Ret, returned, fault, Mode, UserMem, size, slice, add_size,
  key_not_found, size_too_small,
}
use mochi_rkv.Filters.{copy_whole}
use mochi_rkv.MapBackend.{MapDatabase, Wake, look, after_look}
use mochi_rkv.MapBackend.Write.{erase}

abbrev pub is_some : Option Bytes → Bool
is_some none = false
is_some (some v) = true

abbrev pub value_size : Option Bytes → ℕ
value_size none = key_not_found
value_size (some v) = length v

-- A call that failed or waits has written the outputs before its key, and this key's if it got
-- so far.
abbrev pub push {ℓ} : {O : Type ℓ} {S : Type 0} → O → Ret × List O × S → Ret × List O × S
push o (r, os, s) = (r, o ∷ os, s)

module _ {ℓ} {O : Type ℓ} (mode : Mode) (keys : UserMem) (out : Option Bytes → O) where
  -- The loop that `exists` and `length` share: the bound check, the lookup, the output of key i.
  unfoldable pub each_key : ℕ → List ℕ → List Wake → MapDatabase → Ret × List O × MapDatabase
  each_key offset [] ws s = (returned success, [], s)
  each_key offset (n ∷ ksizes) ws s =
      let rest = each_key (add_size offset n) ksizes in
      if ltb (size keys) (add_size offset n)
      then (returned invalid_arg, [], s)
      else elim (slice keys.bytes offset n) [
        | none ↦ (fault, [], s)
        | some key ↦
            after_look (look mode.wait (keys.addr + offset) key ws s) []
              λ found ws' s'. push (out found) (rest ws' s')
      ]

-- exists: nflags is flags.size; the flags are those that the call writes.
unfoldable pub exists :
    Mode → UserMem → List ℕ → ℕ → List Wake → MapDatabase → Ret × List Bool × MapDatabase
unfolding each_key
exists mode keys ksizes nflags ws s =
    if ltb nflags (length ksizes)
    then (returned invalid_arg, [], s)
    else if s.has_migrated
    then (returned migrated, [], s)
    else each_key mode keys is_some 0 ksizes ws s

-- length: nvsizes is vsizes.size.
unfoldable pub value_length :
    Mode → UserMem → List ℕ → ℕ → List Wake → MapDatabase → Ret × List ℕ × MapDatabase
unfolding each_key
value_length mode keys ksizes nvsizes ws s =
    if not (length ksizes == nvsizes)
    then (returned invalid_arg, [], s)
    else if s.has_migrated
    then (returned migrated, [], s)
    else each_key mode keys value_size 0 ksizes ws s

-- What a call writes for one item: the size that it sets, and the bytes that it copies to an
-- offset of the output buffer.
pub record Slot : Type 0 where
  pub value : ℕ
  pub at : ℕ
  pub written : Bytes

-- valCopy(mode, vals.data + at, room, v.data(), v.size())
abbrev pub copy_slot : ℕ → ℕ → Bytes → Slot
copy_slot at room v =
    let (n, bytes) = copy_whole room v in record { value = n; at = at; written = bytes }

abbrev pub only : ℕ → ℕ → Slot
only value at = record { value = value; at = at; written = [] }

abbrev pub push_packed : {S : Type 0} → Slot → Ret × (List Slot × ℕ) × S → Ret × (List Slot × ℕ) × S
push_packed o (r, (os, room), s) = (r, (o ∷ os, room), s)

abbrev pub got : ℕ → ℕ → Option Bytes → Slot
got at room none = only key_not_found at
got at room (some v) = copy_slot at room v

-- One round of a packed get behind its lookup. `room` is val_remaining_size, `small` is
-- buf_too_small, and `rest` runs the later rounds.
unfoldable pub packed_round :
    {S : Type 0}
    → ℕ
    → ℕ
    → Bool
    → (ℕ → ℕ → Bool → Ret × (List Slot × ℕ) × S)
    → Option Bytes
    → Ret × (List Slot × ℕ) × S
packed_round voff room small rest none =
    push_packed (only key_not_found voff) (rest voff room small)
packed_round voff room true rest (some v) =
    push_packed (only size_too_small voff) (rest voff room true)
packed_round voff room false rest (some v) =
    let slot = copy_slot voff room v in
    if slot.value == size_too_small
    then push_packed slot (rest voff room true)
    else push_packed slot (rest (voff + slot.value) (room - slot.value) false)

module _ (mode : Mode) (keys : UserMem) where
  -- get, not packed: the sizes hold the room for each value.
  unfoldable pub get_each :
      ℕ → ℕ → List ℕ → List ℕ → List Wake → MapDatabase → Ret × List Slot × MapDatabase
  get_each koff voff (n ∷ ksizes) (room ∷ vsizes) ws s =
      let rest = get_each (add_size koff n) (add_size voff room) ksizes vsizes in
      elim (slice keys.bytes koff n) [
        | none ↦ (fault, [], s)
        | some key ↦
            after_look (look mode.wait (keys.addr + koff) key ws s) []
              λ found ws' s'. push (got voff room found) (rest ws' s')
      ]
  get_each koff voff _ _ ws s = (returned success, [], s)

  -- get, packed. Beside the slots it returns the room that is left at the end.
  unfoldable pub get_packed :
      ℕ → ℕ → ℕ → Bool → List ℕ → List Wake → MapDatabase → Ret × (List Slot × ℕ) × MapDatabase
  get_packed koff voff room small [] ws s = (returned success, ([], room), s)
  get_packed koff voff room small (n ∷ ksizes) ws s =
      let rest = λ (v r : ℕ) (b : Bool). get_packed (add_size koff n) v r b ksizes in
      elim (slice keys.bytes koff n) [
        | none ↦ (fault, ([], room), s)
        | some key ↦
            after_look (look mode.wait (keys.addr + koff) key ws s) ([], room)
              λ found ws' s'. packed_round voff room small (λ v r b. rest v r b ws' s') found
      ]

-- The outcome of `get`: the status, the slots, vals.size where the call sets it, and the database.
pub record GetResult : Type 0 where
  pub ret : Ret
  pub slots : List Slot
  pub vals_size : Option ℕ
  pub after : MapDatabase

-- if(mode & YOKAN_MODE_CONSUME) { lock.unlock(); return erase(mode, keys, ksizes); }. `window` is
-- what other threads do between the two locks, and `later` their wakes of the erasing call.
unfoldable pub consumed :
    Mode → UserMem → List ℕ → (MapDatabase → MapDatabase) → List Wake → GetResult → GetResult
consumed mode keys ksizes window later g =
    if mode.consume
    then (let (r, u, s) = erase mode keys ksizes later (window g.after) in
        record g { ret = r; after = s })
    else g

-- The loops that do not run to their end return at once, before vals.size is set.
unfoldable pub finish : (GetResult → GetResult) → GetResult → GetResult
finish f g = elim g.ret [
  | returned st ↦ elim st [ success ↦ f g | _ ↦ record g { vals_size = none } ]
  | _ ↦ record g { vals_size = none }
]

unfoldable pub get :
    Mode
    → Bool
    → UserMem
    → List ℕ
    → ℕ
    → List ℕ
    → List Wake
    → (MapDatabase → MapDatabase)
    → List Wake
    → MapDatabase
    → GetResult
unfolding get_each get_packed consumed finish
get mode packed keys ksizes vals_size vsizes ws window later s =
    if not (length ksizes == length vsizes)
    then record { ret = returned invalid_arg; slots = []; vals_size = none; after = s }
    else if s.has_migrated
    then record { ret = returned migrated; slots = []; vals_size = none; after = s }
    else finish (consumed mode keys ksizes window later) (
        if packed
        then (let (r, out, s') = get_packed mode keys 0 0 vals_size false ksizes ws s in
            let (slots, room) = out in
            record { ret = r; slots = slots; vals_size = some (vals_size - room); after = s' })
        else (let (r, slots, s') = get_each mode keys 0 0 ksizes vsizes ws s in
            record { ret = r; slots = slots; vals_size = none; after = s' }))

-- fetch: the calls of the callback, each with the key and the value, none for the null value of
-- size KeyNotFound. What the callback returns is dropped.
unfoldable pub fetch_loop :
    Mode
    → UserMem
    → ℕ
    → List ℕ
    → List Wake
    → MapDatabase
    → Ret × List (Bytes × Option Bytes) × MapDatabase
fetch_loop mode keys koff [] ws s = (returned success, [], s)
fetch_loop mode keys koff (n ∷ ksizes) ws s =
    let rest = fetch_loop mode keys (add_size koff n) ksizes in
    elim (slice keys.bytes koff n) [
      | none ↦ (fault, [], s)
      | some key ↦
          after_look (look mode.wait (keys.addr + koff) key ws s) []
            λ found ws' s'. push (key, found) (rest ws' s')
    ]

unfoldable pub fetch :
    Mode
    → UserMem
    → List ℕ
    → List Wake
    → MapDatabase
    → Ret × List (Bytes × Option Bytes) × MapDatabase
unfolding fetch_loop
fetch mode keys ksizes ws s =
    if s.has_migrated then (returned migrated, [], s) else fetch_loop mode keys 0 ksizes ws s
