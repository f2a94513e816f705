-- ===== src/BulkCache/Order.antt =====
-- What the maps and sets over bulk_less hold after each change.
use mochi_rkv.Prelude.{true, false, ◌≡◌, refl, Option, none, some, [], ◌∷◌, arith, if◌then◌else◌}
use mochi_rkv.BulkCache.{
  Buffer, less, Entries, find, lower_bound, emplace, erase_at, Above, IsSorted,
}

-- Neither buffer is below the other.
abbrev pub if_same {ℓ} : {A : Type ℓ} → Buffer → Buffer → A → A → A
if_same b c x y = if less b c then y else if less c b then y else x

-- less is an order of the sizes and the addresses.
pub less_irrefl : (a : Buffer) → less a a ≡ false
unfolding less
less_irrefl a = ground arith

less-asym : (a b : Buffer) → less a b ≡ true → less b a ≡ false
unfolding less
less-asym a b h = ground arith

less_trans : (a b c : Buffer) → less a b ≡ true → less b c ≡ true → less a c ≡ true
unfolding less
less_trans a b c h h' = ground arith

-- Buffers that are equivalent lie on the same side of every other.
less-left : (a b c : Buffer) → less a b ≡ false → less b a ≡ false → less a c ≡ less b c
unfolding less
less-left a b c h h' = ground arith

less-right : (a b c : Buffer) → less a b ≡ false → less b a ≡ false → less c a ≡ less c b
unfolding less
less-right a b c h h' = ground arith

less-between : (a b c : Buffer) → less a b ≡ true → less c b ≡ false → less a c ≡ true
unfolding less
less-between a b c h h' = ground arith

module _ {A : Type 0} where
  abbrev pub or_else : Option (Buffer × A) → Buffer × A → Option (Buffer × A)
  or_else none v = some v
  or_else (some w) v = some w

  Above-trans : (a b : Buffer) (m : Entries A) → less a b ≡ true → Above b m → Above a m
  Above-trans a b [] h s = tt
  Above-trans a b ((c, x) ∷ m) h s = (less_trans a b c h s.0, Above-trans a b m h s.1)

  Above-emplace :
      (a b : Buffer) (x : A) (m : Entries A) → less a b ≡ true → Above a m → Above a (emplace b x m)
  unfolding emplace
  Above-emplace a b x [] h s = (h, tt)
  Above-emplace a b x ((c, y) ∷ m) h s = ground (arith, Above-emplace a b x m h s.1)

  pub IsSorted-emplace :
      (b : Buffer) (x : A) (m : Entries A) → IsSorted m → IsSorted (emplace b x m)
  unfolding emplace
  IsSorted-emplace b x [] s = (tt, tt)
  IsSorted-emplace b x ((c, y) ∷ m) s =
      ground (arith, Above-emplace c b x m, Above-trans b c m, IsSorted-emplace b x m s.1)

  Above-erase_at : (a b : Buffer) (m : Entries A) → Above a m → Above a (erase_at b m)
  unfolding erase_at
  Above-erase_at a b [] s = tt
  Above-erase_at a b ((c, y) ∷ m) s = ground (arith, Above-erase_at a b m s.1)

  pub IsSorted-erase_at : (b : Buffer) (m : Entries A) → IsSorted m → IsSorted (erase_at b m)
  unfolding erase_at
  IsSorted-erase_at b [] s = tt
  IsSorted-erase_at b ((c, y) ∷ m) s =
      ground (arith, Above-erase_at c b m s.0, IsSorted-erase_at b m s.1)

  pub find-emplace :
      (b c : Buffer) (x : A) (m : Entries A)
      → find c (emplace b x m) ≡ if_same b c (or_else (find b m) (b, x)) (find c m)
  unfolding find emplace
  find-emplace b c x [] = ground arith
  find-emplace b c x ((i, w) ∷ m) = ground (
    arith,
    find-emplace b c x m,
    less-left b i c,
    less-left b c i,
    less-left i c b,
    less-right b i c,
    less-right b c i,
    less-right i c b,
    less-asym b c,
    less-asym i c,
    less-asym c i,
    less-asym i b,
    less_trans b i c,
    less_trans c b i,
    less_trans i b c,
    less_trans c i b,
    less_irrefl i,
  )

  find-Above : (b : Buffer) (m : Entries A) → Above b m → find b m ≡ none
  unfolding find
  find-Above b [] a = refl
  find-Above b ((i, w) ∷ m) a = ground (arith, less-asym b i)

  find-below : (b c : Buffer) (m : Entries A) → Above c m → less b c ≡ true → find b m ≡ none
  find-below b c m a h = find-Above b m (Above-trans b c m h a)

  -- Equivalent buffers find the same.
  pub find-same :
      (b c : Buffer) (m : Entries A) → less b c ≡ false → less c b ≡ false → find b m ≡ find c m
  unfolding find
  find-same b c [] h h' = refl
  find-same b c ((i, w) ∷ m) h h' =
      rw (less-left b c i h h', less-right b c i h h', find-same b c m h h') refl

  pub find-erase_at :
      (b c : Buffer) (m : Entries A)
      → IsSorted m
      → find c (erase_at b m) ≡ if_same b c none (find c m)
  unfolding find erase_at
  find-erase_at b c [] s = ground arith
  find-erase_at b c ((i, w) ∷ m) s = ground (
    arith,
    find-erase_at b c m s.1,
    find-Above i m s.0,
    find-below c i m s.0,
    find-same c i m,
    less-left b i c,
    less-left b c i,
    less-left i c b,
    less-right b i c,
    less-right b c i,
    less-right i c b,
    less-asym b c,
    less-asym i c,
    less-asym c i,
    less-asym i b,
    less_trans b i c,
    less_trans c b i,
    less_trans i b c,
    less_trans c i b,
    less_irrefl i,
  )

  -- What find answers is equivalent to what it looks for.
  pub find_same :
      (b d : Buffer) (x : A) (m : Entries A)
      → find b m ≡ some (d, x)
      → (less b d ≡ false) × (less d b ≡ false)
  unfolding find
  find_same b d x [] h = ground arith
  find_same b d x ((i, w) ∷ m) h = ground (arith, find_same b d x m)

  -- What lower_bound answers is an entry, and no smaller one is at or above the bound.
  pub find-lower_bound :
      (b d : Buffer) (x : A) (m : Entries A)
      → IsSorted m
      → lower_bound b m ≡ some (d, x)
      → (find d m ≡ some (d, x)) × (less d b ≡ false)
  unfolding find lower_bound
  find-lower_bound b d x [] s h = ground arith
  find-lower_bound b d x ((i, w) ∷ m) s h =
      ground (arith, find-lower_bound b d x m s.1, less_irrefl d, less-between i b d, less-asym i d)

  Above-find :
      (b c d : Buffer) (x : A) (m : Entries A)
      → Above b m
      → find c m ≡ some (d, x)
      → less b d ≡ true
  unfolding find
  Above-find b c d x [] a h = ground arith
  Above-find b c d x ((i, w) ∷ m) a h = ground (arith, Above-find b c d x m a.1)

  -- No entry at or above the bound is below that of lower_bound.
  pub lower_bound_least :
      (b c d e : Buffer) (x y : A) (m : Entries A)
      → IsSorted m
      → lower_bound b m ≡ some (d, x)
      → find c m ≡ some (e, y)
      → less e b ≡ false
      → less e d ≡ false
  unfolding find lower_bound
  lower_bound_least b c d e x y [] s h f le = ground arith
  lower_bound_least b c d e x y ((i, w) ∷ m) s h f le = ground (
    arith,
    lower_bound_least b c d e x y m s.1,
    Above-find i c e y m s.0,
    less_irrefl d,
    less-asym i e,
  )

  pub lower_bound-none :
      (b c e : Buffer) (y : A) (m : Entries A)
      → lower_bound b m ≡ none
      → find c m ≡ some (e, y)
      → less e b ≡ true
  unfolding find lower_bound
  lower_bound-none b c e y [] h f = ground arith
  lower_bound-none b c e y ((i, w) ∷ m) h f = ground (arith, lower_bound-none b c e y m)
