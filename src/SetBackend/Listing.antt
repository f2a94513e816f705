-- ===== src/SetBackend/Listing.antt =====
-- listKeys, listKeyValues and iter of src/backends/set.cpp: the filter is given the null value of size 0.
use mochi_rkv.Prelude.{
  ℕ, suc, ◌+◌, ◌-◌, Bool, true, not, ◌&&◌, ◌||◌, List, [], ◌∷◌, Option, none, some, ltb, ◌==◌,
  false, if◌then◌else◌,
}
use mochi_rkv.Common.{Bytes, Status, success, migrated, Mode, add_size, keep_last, size_too_small}
use mochi_rkv.OrderedSet.{lower_bound, upper_bound}
use mochi_rkv.Filters.{KeyValueFilter}
use mochi_rkv.MapBackend.Read.{only}
use mochi_rkv.MapBackend.Listing.{
  key_copy, is_nil, slot_of, fill, Listed, push, ListedPairs, pair_round, fill_pairs,
}
use mochi_rkv.SetBackend.{SetDatabase}

-- fromKeyIt: the keys from which a listing starts.
unfoldable pub start_from : Mode → Bytes → SetDatabase → List Bytes
start_from mode from_key s =
    if is_nil from_key
    then s.db
    else if mode.inclusive
    then lower_bound s.cmp from_key s.db
    else upper_bound s.cmp from_key s.db

module _ (mode : Mode) (packed : Bool) (filter : KeyValueFilter) (buf_size : ℕ) where
  -- The loop of listKeys, over what is left of keySizes.
  unfoldable pub list_keys_loop : ℕ → Bool → List ℕ → List Bytes → Listed
  unfolding key_copy fill
  list_keys_loop offset small sizes [] = (fill offset sizes, offset)
  list_keys_loop offset small [] (key ∷ keys) = ([], offset)
  list_keys_loop offset small (u ∷ sizes) (key ∷ keys) =
      let skip = list_keys_loop offset small (u ∷ sizes) keys in
      let next = λ (o : ℕ) (b : Bool). list_keys_loop o b sizes keys in
      let usize = if packed then buf_size - offset else u in
      let is_last = keep_last mode && (is_nil sizes || is_nil keys) in
      let slot = slot_of offset (key_copy mode is_last filter usize key) in
      if not (filter.check key [])
      then if filter.should_stop key [] then (fill offset (u ∷ sizes), offset) else skip
      else if not packed
      then push slot (next (add_size offset usize) small)
      else if small
      then push (only size_too_small offset) (next offset true)
      else if slot.value == size_too_small
      then push slot (next offset true)
      else push slot (next (offset + slot.value) false)

unfoldable pub list_keys :
    Mode → Bool → Bytes → KeyValueFilter → ℕ → List ℕ → SetDatabase → Status × Option Listed
unfolding list_keys_loop start_from
list_keys mode packed from_key filter buf_size sizes s =
    if s.has_migrated then (migrated, none) else (
      success,
      some (list_keys_loop mode packed filter buf_size 0 false sizes (start_from mode from_key s)),
    )

module _ (mode : Mode) (packed : Bool) (filter : KeyValueFilter) (kcap vcap : ℕ) where
  -- The loop of listKeyValues, over the key sizes and the value sizes that are left; its rounds are those
  -- of the map backend.
  unfoldable pub list_key_values_loop :
      ℕ → ℕ → Bool → Bool → List ℕ → List ℕ → List Bytes → ListedPairs
  unfolding pair_round fill_pairs
  list_key_values_loop koff voff ksmall vsmall (u ∷ ksizes) (w ∷ vsizes) (key ∷ keys) =
      let skip = list_key_values_loop koff voff ksmall vsmall (u ∷ ksizes) (w ∷ vsizes) keys in
      let next = λ (k v : ℕ) (a b : Bool). list_key_values_loop k v a b ksizes vsizes keys in
      pair_round mode packed filter kcap vcap koff voff ksmall vsmall u w ksizes (is_nil keys) key
        [] skip next
  list_key_values_loop koff voff ksmall vsmall ksizes vsizes keys =
      (fill_pairs koff voff ksizes, koff, voff)

-- vals.size = 0 at the end, whatever the copies wrote.
abbrev pub no_values : ListedPairs → ListedPairs
no_values (slots, koff, voff) = (slots, koff, 0)

unfoldable pub list_key_values :
    Mode
    → Bool
    → Bytes
    → KeyValueFilter
    → ℕ
    → List ℕ
    → ℕ
    → List ℕ
    → SetDatabase
    → Status × Option ListedPairs
unfolding list_key_values_loop start_from
list_key_values mode packed from_key filter kcap ksizes vcap vsizes s =
    if s.has_migrated then (migrated, none) else (
      success,
      some (
          no_values (
            list_key_values_loop mode packed filter kcap vcap 0 0 false false ksizes vsizes
              (start_from mode from_key s))),
    )

module _ {T : Type 0} (max : ℕ) (filter : KeyValueFilter) (func : T → Bytes → Status × T) where
  -- The loop of iter, after i calls of the callback, which gets the key and the null value.
  unfoldable pub iter_loop : ℕ → T → List Bytes → Status × T
  iter_loop i t [] = (success, t)
  iter_loop i t (key ∷ keys) =
      let skip = iter_loop i t keys in
      let next = λ (u : T). iter_loop (suc i) u keys in
      if not (max == 0 || ltb i max)
      then (success, t)
      else if not (filter.check key [])
      then if filter.should_stop key [] then (success, t) else skip
      else (let (st, u) = func t key in elim st [ success ↦ next u | failed ↦ (failed, u) ])

  unfoldable pub iter : Mode → Bytes → T → SetDatabase → Status × T
  unfolding iter_loop start_from
  iter mode from_key t s =
      if s.has_migrated then (migrated, t) else iter_loop 0 t (start_from mode from_key s)
