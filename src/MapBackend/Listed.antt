-- ===== src/MapBackend/Listed.antt =====
-- What a packed listing writes.
use mochi_rkv.Prelude.{
  ℕ, suc, ◌+◌, ◌-◌, ◌≤◌, ◌<◌, ◌≡◌, refl, ap, Bool, true, false, not, ◌&&◌, ◌||◌, List, [], ◌∷◌, map,
  length, take, arith, le→ltb, ◌==◌, if◌then◌else◌, inl, inr, Bool-cases,
}
use mochi_rkv.Prelude.{◌⊎◌}
use mochi_rkv.Common.{Bytes, Mode, size_too_small, add_size, keep_last}
use mochi_rkv.OrderedMap.{Entries}
use mochi_rkv.Filters.{KeyValueFilter, Copied, copy_whole}
use mochi_rkv.MapBackend.Read.{Slot}
use mochi_rkv.MapBackend.Listing.{Listed, is_nil, key_copy, fill, list_keys_loop}

-- A copy writes no more than the room, and returns the size that it wrote or YOKAN_SIZE_TOO_SMALL.
abbrev pub IsBounded : (ℕ → Bytes → Copied) → Type 0
IsBounded copy =
    (max : ℕ) (src : Bytes)
    → (length (copy max src).1 ≤ max)
      × (((copy max src).0 ≡ size_too_small) ⊎ ((copy max src).0 ≡ length (copy max src).1))

-- Every write of a listing lies inside of a buffer of this size.
abbrev pub Inside : ℕ → List Slot → Type 0
Inside buf_size [] = Unit {0}
Inside buf_size (o ∷ os) = (o.at + length o.written ≤ buf_size) × Inside buf_size os

Inside-fill : (buf_size at : ℕ) (sizes : List ℕ) → at ≤ buf_size → Inside buf_size (fill at sizes)
unfolding fill
Inside-fill buf_size at [] h = tt
Inside-fill buf_size at (u ∷ sizes) h = (omega arith, Inside-fill buf_size at sizes h)

length-fill : (at : ℕ) (sizes : List ℕ) → length (fill at sizes) ≡ length sizes
unfolding fill
length-fill at [] = refl
length-fill at (u ∷ sizes) = ap suc (length-fill at sizes)

key_copy-IsBounded :
    (mode : Mode) (last : Bool) (f : KeyValueFilter)
    → IsBounded f.key_copy
    → IsBounded (key_copy mode last f)
unfolding key_copy
key_copy-IsBounded mode last f b max src =
    elim (Bool-cases (mode.ignore_keys && not (last && keep_last mode))) [
      | inl e ↦ rw e (omega arith, inr refl)
      | inr e ↦ rw e (b max src)
    ]

module _ (mode : Mode) (f : KeyValueFilter) (buf_size : ℕ) (b : IsBounded f.key_copy) where
  -- A packed listing sets each of the sizes that it is given, writes inside of the key buffer only,
  -- and ends inside of it, whatever the entries and the flags.
  pub list_keys-Inside :
      (offset : ℕ) (small : Bool) (sizes : List ℕ) (entries : Entries)
      → offset ≤ buf_size
      → (length (list_keys_loop mode true f buf_size offset small sizes entries).0 ≡ length sizes)
        × Inside buf_size (list_keys_loop mode true f buf_size offset small sizes entries).0
        × ((list_keys_loop mode true f buf_size offset small sizes entries).1 ≤ buf_size)
  unfolding list_keys_loop
  list_keys-Inside offset small sizes [] h =
      (length-fill offset sizes, Inside-fill buf_size offset sizes h, h)
  list_keys-Inside offset small [] ((k, v) ∷ es) h = (refl, tt, h)
  list_keys-Inside offset small (u ∷ sizes) ((k, v) ∷ es) h =
      let last = keep_last mode && (is_nil sizes || is_nil es) in
      let c = key_copy mode last f (buf_size - offset) k in
      ground (
        arith,
        key_copy-IsBounded mode last f b (buf_size - offset) k,
        length-fill offset sizes,
        Inside-fill buf_size offset sizes h,
        list_keys-Inside offset small (u ∷ sizes) es h,
        list_keys-Inside offset true sizes es h,
        list_keys-Inside (offset + c.0) false sizes es,
      )

-- With YOKAN_MODE_IGNORE_KEYS set, the other bit of YOKAN_MODE_KEEP_LAST makes no difference: the
-- last key is copied out although only IGNORE_KEYS is asked for.
ignore_keys_keeps_last :
    (mode : Mode) (packed : Bool) (f : KeyValueFilter) (buf_size offset : ℕ) (small : Bool)
    (sizes : List ℕ) (entries : Entries)
    → mode.ignore_keys ≡ true
    → list_keys_loop mode packed f buf_size offset small sizes entries
      ≡ list_keys_loop
          (record mode { keep_last_bit = true })
          packed
          f
          buf_size
          offset
          small
          sizes
          entries
unfolding list_keys_loop
ignore_keys_keeps_last mode packed f buf_size offset small sizes [] h = refl
ignore_keys_keeps_last mode packed f buf_size offset small [] (e ∷ es) h = refl
ignore_keys_keeps_last mode packed f buf_size offset small (u ∷ sizes) ((k, v) ∷ es) h =
    let usize = if packed then buf_size - offset else u in
    let c = key_copy mode (is_nil sizes || is_nil es) f usize k in
    ground (
      arith,
      ignore_keys_keeps_last mode packed f buf_size offset small (u ∷ sizes) es h,
      ignore_keys_keeps_last mode packed f buf_size (add_size offset usize) small sizes es h,
      ignore_keys_keeps_last mode packed f buf_size offset true sizes es h,
      ignore_keys_keeps_last mode packed f buf_size (offset + c.0) false sizes es h,
    )

-- The keys that pass the filter.
abbrev pub passing : KeyValueFilter → Entries → List Bytes
passing f [] = []
passing f ((k, v) ∷ es) = if f.check k v then k ∷ passing f es else passing f es

abbrev pub NonePass : KeyValueFilter → Entries → Type 0
NonePass f [] = Unit {0}
NonePass f ((k, v) ∷ es) = (f.check k v ≡ false) × NonePass f es

-- Where the filter says stop, nothing later passes.
abbrev pub StopsSoundly : KeyValueFilter → Entries → Type 0
StopsSoundly f [] = Unit {0}
StopsSoundly f ((k, v) ∷ es) = (f.should_stop k v ≡ true → NonePass f es) × StopsSoundly f es

passing-NonePass : (f : KeyValueFilter) (es : Entries) → NonePass f es → passing f es ≡ []
passing-NonePass f [] h = refl
passing-NonePass f ((k, v) ∷ es) h = rw (h.0) (passing-NonePass f es h.1)

-- The abstract listing: the items one behind the other while there are sizes, each with its size,
-- and YOKAN_NO_MORE_KEYS for the sizes that are left.
abbrev pub laid : ℕ → List Bytes → List ℕ → Listed
laid at [] sizes = (fill at sizes, at)
laid at (b ∷ bs) [] = ([], at)
laid at (b ∷ bs) (u ∷ sizes) =
    let (os, e) = laid (at + length b) bs sizes in
    (record { value = length b; at = at; written = b } ∷ os, e)

abbrev pub total : List Bytes → ℕ
total [] = 0
total (b ∷ bs) = length b + total bs

laid-nil : (at : ℕ) (bs : List Bytes) → laid at bs [] ≡ ([], at)
unfolding fill
laid-nil at [] = refl
laid-nil at (b ∷ bs) = refl

module _ (mode : Mode) (f : KeyValueFilter) (buf_size : ℕ) (g : Bytes → Bytes)
    (plain : mode.ignore_keys ≡ false)
    (copies : (max : ℕ) (k : Bytes) → f.key_copy max k ≡ copy_whole max (g k))
    (small_cap : buf_size < size_too_small) where
  copies_room :
      (last : Bool) (offset : ℕ) (k : Bytes)
      → offset + length (g k) ≤ buf_size
      → key_copy mode last f (buf_size - offset) k ≡ (length (g k), g k)
  unfolding key_copy copy_whole
  copies_room last offset k h = rw plain (
      rw (copies (buf_size - offset) k)
        (rw (le→ltb (buf_size - offset) (length (g k)) (omega arith)) refl))

  -- A packed listing with room for its items is the abstract listing of the keys that pass the
  -- filter, copied by g, if the filter stops soundly, keys are not ignored, and the filter's copy
  -- is that of g.
  pub list_keys_exact :
      (offset : ℕ) (sizes : List ℕ) (es : Entries)
      → StopsSoundly f es
      → offset + total (take (length sizes) (map g (passing f es))) ≤ buf_size
      → list_keys_loop mode true f buf_size offset false sizes es
        ≡ laid offset (map g (passing f es)) sizes
  unfolding list_keys_loop
  list_keys_exact offset sizes [] st h = refl
  list_keys_exact offset [] ((k, v) ∷ es) st h =
      rw (laid-nil offset (map g (passing f ((k, v) ∷ es))))
  list_keys_exact offset (u ∷ sizes) ((k, v) ∷ es) st h = elim (Bool-cases (f.check k v)) [
    | inl pass ↦
        let room = pass_room (length sizes) pass h in
        rw (pass, list_keys_loop)
          (rw
            (copies_room (keep_last mode && (is_nil sizes || is_nil es)) offset k
              (omega (arith, room)))
            (rw (not_small (length (g k)) (omega (arith, room)))
              (rw (list_keys_exact (offset + length (g k)) sizes es st.1 (omega (arith, room))))))
    | inr fail ↦ elim (Bool-cases (f.should_stop k v)) [
      | inl stop ↦
          rw (fail, list_keys_loop)
            (rw (stop, list_keys_loop) (rw (passing-NonePass f es (st.0 stop))))
      | inr go ↦
          rw (fail, list_keys_loop)
            (rw (go, list_keys_loop) (list_keys_exact offset (u ∷ sizes) es st.1 (rw fail at h)))
    ]
  ]
    where
      not_small : (n : ℕ) → n ≤ buf_size → (n == size_too_small) ≡ false
      not_small n l = ground arith

      pass_room :
          (n : ℕ)
          → f.check k v ≡ true
          → offset + total (take (suc n) (map g (passing f ((k, v) ∷ es)))) ≤ buf_size
          → offset + (length (g k) + total (take n (map g (passing f es)))) ≤ buf_size
      pass_room n pass l = rw pass at l
