-- ===== src/SetBackend/Listed.antt =====
-- The listings of the set database are those of the map database with empty values.
use mochi_rkv.Prelude.{ℕ, ◌≡◌, refl, Bool, false, List, [], ◌∷◌, Option, none, some, arith}
use mathlib.Core.Path.{ap₂, fun_ext}
use mochi_rkv.Common.{Bytes, Mode, Status}
use mochi_rkv.OrderedSet.{with_empty}
use mochi_rkv.Filters.{KeyValueFilter}
use mochi_rkv.MapBackend.Listing as MapListing
use mochi_rkv.MapBackend.Listing.{is_nil, ListedPairs, pair_round}
use mochi_rkv.SetBackend.{SetDatabase, as_map}
use mochi_rkv.SetBackend.Embedding.{lower_bound-with_empty, upper_bound-with_empty}
use mochi_rkv.SetBackend.Listing.{
  start_from, list_keys_loop, list_keys, list_key_values_loop, list_key_values, no_values,
}

start_from-as_map :
    (mode : Mode) (from_key : Bytes) (s : SetDatabase)
    → MapListing.start_from mode from_key (as_map s) ≡ with_empty (start_from mode from_key s)
unfolding MapListing.start_from start_from
start_from-as_map mode from_key s =
    ground (
      arith,
      lower_bound-with_empty s.cmp from_key s.db,
      upper_bound-with_empty s.cmp from_key s.db,
    )

is_nil-with_empty : (l : List Bytes) → is_nil (with_empty l) ≡ is_nil l
is_nil-with_empty [] = refl
is_nil-with_empty (k ∷ l) = refl

module _ (mode : Mode) (packed : Bool) (filter : KeyValueFilter) (buf_size : ℕ) where
  list_keys_loop-with_empty :
      (offset : ℕ) (small : Bool) (sizes : List ℕ) (l : List Bytes)
      → MapListing.list_keys_loop mode packed filter buf_size offset small sizes (with_empty l)
        ≡ list_keys_loop mode packed filter buf_size offset small sizes l
  unfolding MapListing.list_keys_loop list_keys_loop
  list_keys_loop-with_empty offset small sizes [] = refl
  list_keys_loop-with_empty offset small [] (key ∷ keys) = refl
  list_keys_loop-with_empty offset small (u ∷ sizes) (key ∷ keys) =
      let ih : (o : ℕ) (b : Bool) (z : List ℕ)
          → MapListing.list_keys_loop mode packed filter buf_size o b z (with_empty keys)
            ≡ list_keys_loop mode packed filter buf_size o b z keys =
        λ o b z. list_keys_loop-with_empty o b z keys in
      simp (is_nil-with_empty keys, ih)

module _ (mode : Mode) (packed : Bool) (filter : KeyValueFilter) (kcap vcap : ℕ) where
  list_key_values_loop-with_empty :
      (koff voff : ℕ) (ksmall vsmall : Bool) (ksizes vsizes : List ℕ) (l : List Bytes)
      → MapListing.list_key_values_loop mode packed filter kcap vcap koff voff ksmall vsmall ksizes
          vsizes
          (with_empty l)
        ≡ list_key_values_loop mode packed filter kcap vcap koff voff ksmall vsmall ksizes vsizes l
  unfolding MapListing.list_key_values_loop list_key_values_loop
  list_key_values_loop-with_empty koff voff ksmall vsmall [] vsizes l = refl
  list_key_values_loop-with_empty koff voff ksmall vsmall (u ∷ ksizes) [] l = refl
  list_key_values_loop-with_empty koff voff ksmall vsmall (u ∷ ksizes) (w ∷ vsizes) [] = refl
  list_key_values_loop-with_empty koff voff ksmall vsmall (u ∷ ksizes) (w ∷ vsizes) (key ∷ keys) =
      rw (is_nil-with_empty keys) (
        ap₂
          (pair_round mode packed filter kcap vcap koff voff ksmall vsmall u w ksizes (is_nil keys)
            key [])
          (list_key_values_loop-with_empty koff voff ksmall vsmall (u ∷ ksizes) (w ∷ vsizes) keys)
          (fun_ext λ k. fun_ext λ v.
            fun_ext λ a. fun_ext λ b. list_key_values_loop-with_empty k v a b ksizes vsizes keys))

pub list_keys-as_map :
    (mode : Mode) (packed : Bool) (from_key : Bytes) (filter : KeyValueFilter) (buf_size : ℕ)
    (sizes : List ℕ) (s : SetDatabase)
    → MapListing.list_keys mode packed from_key filter buf_size sizes (as_map s)
      ≡ list_keys mode packed from_key filter buf_size sizes s
unfolding MapListing.list_keys list_keys
list_keys-as_map mode packed from_key filter buf_size sizes s =
    rw (start_from-as_map mode from_key s) (
      rw
        (list_keys_loop-with_empty mode packed filter buf_size 0 false sizes
          (start_from mode from_key s))
        refl)

abbrev pub without_values : Status × Option ListedPairs → Status × Option ListedPairs
without_values (st, none) = (st, none)
without_values (st, some l) = (st, some (no_values l))

pub list_key_values-as_map :
    (mode : Mode) (packed : Bool) (from_key : Bytes) (filter : KeyValueFilter) (kcap : ℕ)
    (ksizes : List ℕ) (vcap : ℕ) (vsizes : List ℕ) (s : SetDatabase)
    → without_values
        (MapListing.list_key_values mode packed from_key filter kcap ksizes vcap vsizes (as_map s))
      ≡ list_key_values mode packed from_key filter kcap ksizes vcap vsizes s
unfolding MapListing.list_key_values list_key_values
list_key_values-as_map mode packed from_key filter kcap ksizes vcap vsizes s =
    rw (start_from-as_map mode from_key s) (
      rw
        (list_key_values_loop-with_empty mode packed filter kcap vcap 0 0 false false ksizes vsizes
          (start_from mode from_key s))
        (ground arith))
