-- ===== src/MapBackend/Pages.antt =====
-- Where a listing starts, and what a listing by prefix returns.
use mochi_rkv.Prelude.{
  ◌≡◌, refl, Bool, true, false, not, List, [], ◌∷◌, map, length, drop, arith, if◌then◌else◌,
}
use mochi_rkv.Common.{Bytes, Mode}
use mochi_rkv.Bytes.{IsStrictTotal, default_mem_cmp}
use mochi_rkv.Bytes.Order.{default_mem_cmp-eq-lex_lt}
use mochi_rkv.OrderedMap.{Entries, lower_bound, upper_bound, Above, IsSorted}
use mochi_rkv.Filters.{key_prefix_filter, prefix_should_stop}
use mochi_rkv.Filters.Laws.{prefix_should_stop_sound}
use mochi_rkv.MapBackend.{MapDatabase}
use mochi_rkv.MapBackend.Listing.{is_nil}
use mochi_rkv.MapBackend.Listed.{passing, NonePass, StopsSoundly}

-- The entries whose key passes a test.
abbrev pub keep : (Bytes → Bool) → Entries → Entries
keep p [] = []
keep p ((k, v) ∷ m) = if p k then (k, v) ∷ keep p m else keep p m

module _ (cmp : Bytes → Bytes → Bool) (o : IsStrictTotal cmp) where
  keep_from :
      (k j : Bytes) (m : Entries)
      → cmp j k ≡ false
      → Above cmp j m
      → keep (λ i. not (cmp i k)) m ≡ m
  keep_from k j [] h a = refl
  keep_from k j ((i, w) ∷ m) h a = ground (arith, keep_from k j m h a.1, o.trans j i k)

  -- The entries from lower_bound(k) on are those whose key is not below k.
  pub lower_bound-keep :
      (k : Bytes) (m : Entries) → IsSorted cmp m → lower_bound cmp k m ≡ keep (λ j. not (cmp j k)) m
  unfolding lower_bound
  lower_bound-keep k [] h = refl
  lower_bound-keep k ((j, w) ∷ m) h = ground (arith, lower_bound-keep k m h.1, keep_from k j m)

  keep_after : (k j : Bytes) (m : Entries) → cmp k j ≡ true → Above cmp j m → keep (cmp k) m ≡ m
  keep_after k j [] h a = refl
  keep_after k j ((i, w) ∷ m) h a = ground (arith, keep_after k j m h a.1, o.trans k j i)

  -- The entries from upper_bound(k) on are those whose key is above k.
  pub upper_bound-keep :
      (k : Bytes) (m : Entries) → IsSorted cmp m → upper_bound cmp k m ≡ keep (cmp k) m
  unfolding upper_bound
  upper_bound-keep k [] h = refl
  upper_bound-keep k ((j, w) ∷ m) h = ground (arith, upper_bound-keep k m h.1, keep_after k j m)

  Above-keep : (p : Bytes → Bool) (j : Bytes) (m : Entries) → Above cmp j m → Above cmp j (keep p m)
  Above-keep p j [] h = tt
  Above-keep p j ((i, w) ∷ m) h = ground (arith, Above-keep p j m h.1)

  pub IsSorted-keep : (p : Bytes → Bool) (m : Entries) → IsSorted cmp m → IsSorted cmp (keep p m)
  IsSorted-keep p [] h = tt
  IsSorted-keep p ((i, w) ∷ m) h = ground (arith, Above-keep p i m h.0, IsSorted-keep p m h.1)

-- The keys that a listing starts with or behind: all of them for the empty key, else those from it
-- on with INCLUSIVE and those behind it without.
abbrev pub in_range : Mode → Bytes → (Bytes → Bytes → Bool) → Bytes → Bool
in_range mode from_key cmp j =
    if is_nil from_key
    then true
    else if mode.inclusive
    then not (cmp j from_key)
    else cmp from_key j

module _ (mode : Mode) (p : Bytes) where
  prefix_NonePass :
      (k : Bytes) (m : Entries)
      → prefix_should_stop p k ≡ true
      → Above default_mem_cmp k m
      → NonePass (key_prefix_filter mode p) m
  unfolding key_prefix_filter
  prefix_NonePass k [] st h = tt
  prefix_NonePass k ((j, w) ∷ m) st h = (
    prefix_should_stop_sound p k j st (rw (← default_mem_cmp-eq-lex_lt k j) (h.0)),
    prefix_NonePass k m st h.1,
  )

  -- On a map in the default order the prefix filter stops a listing only where nothing later passes.
  pub prefix_StopsSoundly :
      (m : Entries) → IsSorted default_mem_cmp m → StopsSoundly (key_prefix_filter mode p) m
  unfolding key_prefix_filter
  prefix_StopsSoundly [] h = tt
  prefix_StopsSoundly ((k, v) ∷ m) h =
      ((λ st. prefix_NonePass k m st h.0), prefix_StopsSoundly m h.1)

  -- What is returned of a key: with NO_PREFIX, what stands behind the prefix.
  abbrev pub shown : Bytes → Bytes
  shown k = if mode.no_prefix then drop (length p) k else k

  -- The keys of a map that are in range and begin with the prefix, as they are returned.
  abbrev pub matching : Bytes → MapDatabase → List Bytes
  matching from_key s =
      map shown (passing (key_prefix_filter mode p) (keep (in_range mode from_key s.cmp) s.db))
