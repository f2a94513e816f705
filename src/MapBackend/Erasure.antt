-- ===== src/MapBackend/Erasure.antt =====
-- What erase does to the map that clients see, on well-formed requests.
use mochi_rkv.Prelude.{
  ℕ, ◌<◌, ◌≡◌, refl, ◌∙◌, Bool, false, List, [], ◌∷◌, ◌++◌, length, Option, none, arith, inl, inr,
  Option-cases,
}
use mathlib.Core.Path.{fun_ext}
use mochi_rkv.Common.{Bytes, size_mod, success, returned, Mode}
use mochi_rkv.Bytes.{IsStrictTotal}
use mochi_rkv.OrderedMap.{find, IsSorted}
use mochi_rkv.OrderedMap.Sorted.{IsSorted-erase}
use mochi_rkv.OrderedMap.Lookup.{if_same, find-erase}
use mochi_rkv.MapBackend.{MapDatabase, Wake}
use mochi_rkv.MapBackend.Write.{erase, erase_loop, erased}
use mochi_rkv.MapBackend.Request.{concat, sizes_of, slice_item, next_offset, fits, later_part}
use mochi_rkv.MapBackend.Lookups.{after_look_lem, keys_at}
use mochi_rkv.MapBackend.Rounds.{view, find_same}

-- The abstract erase: each key is taken out.
abbrev pub erase_all :
    (Bytes → Bytes → Bool) → List Bytes → (Bytes → Option Bytes) → (Bytes → Option Bytes)
erase_all cmp [] f = f
erase_all cmp (k ∷ ks) f = erase_all cmp ks (λ j. if_same cmp k j none (f j))

-- The database after the rounds.
abbrev pub erase_rounds : List Bytes → MapDatabase → MapDatabase
erase_rounds [] s = s
erase_rounds (k ∷ ks) s = erase_rounds ks (erased k (find s.cmp k s.db) s)

module _ (s : MapDatabase) (k : Bytes) where
  abbrev without : MapDatabase
  without = erased k (find s.cmp k s.db) s

  without_cmp : without.cmp ≡ s.cmp
  without_cmp = ground arith

  without-IsSorted : IsStrictTotal s.cmp → IsSorted s.cmp s.db → IsSorted without.cmp without.db
  without-IsSorted o h = elim (Option-cases (find s.cmp k s.db)) [
    | inl e ↦ rw e h
    | inr (v, e) ↦ rw e (IsSorted-erase s.cmp o k s.db h)
  ]

  view-without :
      IsStrictTotal s.cmp
      → IsSorted s.cmp s.db
      → (j : Bytes) → view without j ≡ if_same s.cmp k j none (view s j)
  view-without o h j = ground (arith, find-erase s.cmp o k j s.db h, find_same s.cmp o k j s.db)

pub view-erase_rounds :
    (ks : List Bytes) (s : MapDatabase)
    → IsStrictTotal s.cmp
    → IsSorted s.cmp s.db
    → view (erase_rounds ks s) ≡ erase_all s.cmp ks (view s)
view-erase_rounds [] s o h = refl
view-erase_rounds (k ∷ ks) s o h =
    view-erase_rounds ks (without s k) (rw (without_cmp s k) o) (without-IsSorted s k o h)
    ∙ (λ i. erase_all (without_cmp s k i) ks (fun_ext (view-without s k o h) i))

module _ (mode : Mode) (ws : List Wake) (addr : ℕ) (buf : Bytes) (no_wait : mode.wait ≡ false)
    (short : length buf < size_mod) where
  erase_loop_lem :
      (before : Bytes) (ks : List Bytes) (s : MapDatabase)
      → buf ≡ before ++ concat ks
      → erase_loop mode (record { addr = addr; bytes = buf }) (length before) (sizes_of ks) ws s
        ≡ (returned success, tt, erase_rounds ks s)
  unfolding erase_loop
  erase_loop_lem before [] s e = refl
  erase_loop_lem before (k ∷ ks) s e =
      rw (fits buf before k (concat ks) e short, erase_loop)
        (rw (slice_item buf before k (concat ks) e) (
          rw no_wait (
            rw after_look_lem (
              rw (next_offset buf before k (concat ks) e short) (
                erase_loop_lem (before ++ k) ks (without s k)
                  (later_part buf before k (concat ks) e))))))

-- Without WAIT, on a well-formed request to a database that has not migrated: erase succeeds, and
-- clients see the map without the keys of the request.
pub erase_keys :
    (mode : Mode) (ws : List Wake) (addr : ℕ) (ks : List Bytes) (s : MapDatabase)
    → mode.wait ≡ false
    → s.has_migrated ≡ false
    → length (concat ks) < size_mod
    → IsStrictTotal s.cmp
    → IsSorted s.cmp s.db
    → (erase mode (keys_at addr ks) (sizes_of ks) ws s ≡ (returned success, tt, erase_rounds ks s))
      × (view (erase_rounds ks s) ≡ erase_all s.cmp ks (view s))
unfolding erase
erase_keys mode ws addr ks s no_wait here short o h = (
  simp here (erase_loop_lem mode ws addr (concat ks) no_wait short [] ks s refl),
  view-erase_rounds ks s o h,
)
