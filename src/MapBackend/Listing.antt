-- ===== src/MapBackend/Listing.antt =====
-- listKeys, listKeyValues and iter of src/backends/map.cpp, and keyCopy of
-- src/backends/util/key-copy.hpp.
use mochi_rkv.Prelude.{
  ℕ, suc, ◌+◌, ◌-◌, Bool, true, false, not, ◌&&◌, ◌||◌, List, [], ◌∷◌, Option, none, some, ltb,
  ◌==◌, if◌then◌else◌,
}
use mochi_rkv.Common.{
  Bytes, Status, success, migrated, Mode, add_size, keep_last, no_more_keys, size_too_small,
}
use mochi_rkv.OrderedMap.{Entries, lower_bound, upper_bound}
use mochi_rkv.Filters.{KeyValueFilter, Copied}
use mochi_rkv.MapBackend.{MapDatabase}
use mochi_rkv.MapBackend.Read.{Slot, only}

-- keyCopy(mode, is_last, filter, dst, max, key)
unfoldable pub key_copy : Mode → Bool → KeyValueFilter → ℕ → Bytes → Copied
key_copy mode is_last filter max key =
    if mode.ignore_keys && not (is_last && keep_last mode) then (0, []) else filter.key_copy max key

abbrev pub is_nil {ℓ} : {A : Type ℓ} → List A → Bool
is_nil [] = true
is_nil (x ∷ xs) = false

-- fromKeyIt: the entries from which a listing starts.
unfoldable pub start_from : Mode → Bytes → MapDatabase → Entries
start_from mode from_key s =
    if is_nil from_key
    then s.db
    else if mode.inclusive
    then lower_bound s.cmp from_key s.db
    else upper_bound s.cmp from_key s.db

abbrev pub slot_of : ℕ → Copied → Slot
slot_of at (n, bytes) = record { value = n; at = at; written = bytes }

-- The sizes behind the last item are set to YOKAN_NO_MORE_KEYS.
unfoldable pub fill : ℕ → List ℕ → List Slot
fill at [] = []
fill at (u ∷ sizes) = only no_more_keys at ∷ fill at sizes

-- A listing: what it writes for each item, and the offset at which it ends (keys.size).
abbrev pub Listed : Type 0
Listed = List Slot × ℕ

abbrev pub push : Slot → Listed → Listed
push o (os, e) = (o ∷ os, e)

module _ (mode : Mode) (packed : Bool) (filter : KeyValueFilter) (buf_size : ℕ) where
  -- The loop of listKeys. `buf_size` is keys.size on entry; the list holds what is left of keySizes, one
  -- size for each round that may follow, so its tail is empty where i + 1 == max.
  unfoldable pub list_keys_loop : ℕ → Bool → List ℕ → Entries → Listed
  unfolding key_copy fill
  list_keys_loop offset small sizes [] = (fill offset sizes, offset)
  list_keys_loop offset small [] ((key, val) ∷ entries) = ([], offset)
  list_keys_loop offset small (u ∷ sizes) ((key, val) ∷ entries) =
      let skip = list_keys_loop offset small (u ∷ sizes) entries in
      let next = λ (o : ℕ) (b : Bool). list_keys_loop o b sizes entries in
      let usize = if packed then buf_size - offset else u in
      let is_last = keep_last mode && (is_nil sizes || is_nil entries) in
      let slot = slot_of offset (key_copy mode is_last filter usize key) in
      if not (filter.check key val)
      then if filter.should_stop key val then (fill offset (u ∷ sizes), offset) else skip
      else if not packed
      then push slot (next (add_size offset usize) small)
      else if small
      then push (only size_too_small offset) (next offset true)
      else if slot.value == size_too_small
      then push slot (next offset true)
      else push slot (next (offset + slot.value) false)

-- The status, and what is written where it is OK.
unfoldable pub list_keys :
    Mode → Bool → Bytes → KeyValueFilter → ℕ → List ℕ → MapDatabase → Status × Option Listed
unfolding list_keys_loop start_from
list_keys mode packed from_key filter buf_size sizes s =
    if s.has_migrated then (migrated, none) else (
      success,
      some (list_keys_loop mode packed filter buf_size 0 false sizes (start_from mode from_key s)),
    )

-- A listing of keys with their values.
abbrev pub ListedPairs : Type 0
ListedPairs = List (Slot × Slot) × ℕ × ℕ

abbrev push_pair : Slot → Slot → ListedPairs → ListedPairs
push_pair k v (os, e, f) = ((k, v) ∷ os, e, f)

-- if(too_small) YOKAN_SIZE_TOO_SMALL else the copy.
abbrev unless_small : Bool → ℕ → Slot → Slot
unless_small small at slot = if small then only size_too_small at else slot

abbrev moved : ℕ → Slot → ℕ
moved offset slot = if slot.value == size_too_small then offset else offset + slot.value

unfoldable pub fill_pairs : ℕ → ℕ → List ℕ → List (Slot × Slot)
fill_pairs at at' [] = []
fill_pairs at at' (u ∷ sizes) =
    (only no_more_keys at, only no_more_keys at') ∷ fill_pairs at at' sizes

module _ (mode : Mode) (packed : Bool) (filter : KeyValueFilter) (kcap vcap : ℕ) where
  -- One round of the loop of listKeyValues. `last_entry` is next == end; `skip` goes on behind an entry
  -- that the filter drops, `next` behind one that is listed.
  unfoldable pub pair_round :
      ℕ
      → ℕ
      → Bool
      → Bool
      → ℕ
      → ℕ
      → List ℕ
      → Bool
      → Bytes
      → Bytes
      → ListedPairs
      → (ℕ → ℕ → Bool → Bool → ListedPairs)
      → ListedPairs
  unfolding key_copy fill_pairs
  pair_round koff voff ksmall vsmall u w ksizes last_entry key val skip next =
      let kroom = if packed then kcap - koff else u in
      let vroom = if packed then vcap - voff else w in
      let is_last = keep_last mode && (is_nil ksizes || last_entry) in
      let kcopy = slot_of koff (key_copy mode is_last filter kroom key) in
      let vcopy = slot_of voff (filter.val_copy vroom val) in
      let kslot = unless_small ksmall koff kcopy in
      let vslot = unless_small vsmall voff vcopy in
      if not (filter.check key val)
      then if filter.should_stop key val
        then (fill_pairs koff voff (u ∷ ksizes), koff, voff)
        else skip
      else if not packed
      then push_pair kcopy vcopy (next (add_size koff u) (add_size voff w) ksmall vsmall)
      else push_pair kslot vslot (
          next (moved koff kslot) (moved voff vslot) (kslot.value == size_too_small)
            (vslot.value == size_too_small))

  -- The loop of listKeyValues, over the key sizes and the value sizes that are left.
  unfoldable pub list_key_values_loop :
      ℕ → ℕ → Bool → Bool → List ℕ → List ℕ → Entries → ListedPairs
  unfolding pair_round fill_pairs
  list_key_values_loop koff voff ksmall vsmall (u ∷ ksizes) (w ∷ vsizes) ((key, val) ∷ entries) =
      let skip = list_key_values_loop koff voff ksmall vsmall (u ∷ ksizes) (w ∷ vsizes) entries in
      let next = λ (k v : ℕ) (a b : Bool). list_key_values_loop k v a b ksizes vsizes entries in
      pair_round koff voff ksmall vsmall u w ksizes (is_nil entries) key val skip next
  list_key_values_loop koff voff ksmall vsmall ksizes vsizes entries =
      (fill_pairs koff voff ksizes, koff, voff)

unfoldable pub list_key_values :
    Mode
    → Bool
    → Bytes
    → KeyValueFilter
    → ℕ
    → List ℕ
    → ℕ
    → List ℕ
    → MapDatabase
    → Status × Option ListedPairs
unfolding list_key_values_loop start_from
list_key_values mode packed from_key filter kcap ksizes vcap vsizes s =
    if s.has_migrated then (migrated, none) else (
      success,
      some (
          list_key_values_loop mode packed filter kcap vcap 0 0 false false ksizes vsizes
            (start_from mode from_key s)),
    )

module _ {S : Type 0} (max : ℕ) (filter : KeyValueFilter) (ignore_values : Bool)
    (func : S → Bytes → Option Bytes → Status × S) where
  -- The value that the callback gets: none for UserMem{nullptr, 0}.
  abbrev handed : Bytes → Option Bytes
  handed val = if ignore_values && not filter.requires_value then none else some val

  abbrev unless_failed : Status × S → (S → Status × S) → Status × S
  unless_failed (st, t) next = elim st [ success ↦ next t | failed ↦ (failed, t) ]

  -- The loop of iter, after i calls of the callback, over the callback's own state.
  unfoldable pub iter_loop : ℕ → S → Entries → Status × S
  iter_loop i t [] = (success, t)
  iter_loop i t ((key, val) ∷ entries) =
      let skip = iter_loop i t entries in
      let next = λ (u : S). iter_loop (suc i) u entries in
      if not (max == 0 || ltb i max)
      then (success, t)
      else if not (filter.check key val)
      then if filter.should_stop key val then (success, t) else skip
      else unless_failed (func t key (handed val)) next

  unfoldable pub iter : Mode → Bytes → S → MapDatabase → Status × S
  unfolding iter_loop start_from
  iter mode from_key t s =
      if s.has_migrated then (migrated, t) else iter_loop 0 t (start_from mode from_key s)
