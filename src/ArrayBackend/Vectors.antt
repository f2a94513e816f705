-- ===== src/ArrayBackend/Vectors.antt =====
-- Changes of one place of the vectors of a collection.
use mochi_rkv.Prelude.{
  ℕ, zero, suc, ◌+◌, ◌≤◌, ◌≡◌, refl, ap, false, List, [], ◌∷◌, length, get_elem?, set, Option, none,
  some, arith, ◌==◌, if◌then◌else◌,
}
use mochi_rkv.Common.{Bytes, key_not_found}
use mochi_rkv.ArrayBackend.Stored.{Held, live, doc_of, docs_of}

pub docs_of-set :
    (vec : Bytes) (ns os : List ℕ) (id n o : ℕ)
    → docs_of vec (set ns id n) (set os id o) ≡ set (docs_of vec ns os) id (doc_of vec n o)
docs_of-set vec [] os id n o = refl
docs_of-set vec (m ∷ ns) [] zero n o = refl
docs_of-set vec (m ∷ ns) [] (suc id) n o = refl
docs_of-set vec (m ∷ ns) (p ∷ os) zero n o = refl
docs_of-set vec (m ∷ ns) (p ∷ os) (suc id) n o =
    ap (◌∷◌ (doc_of vec m p)) (docs_of-set vec ns os id n o)

pub set-outside :
    (vec : Bytes) (ns os : List ℕ) (id : ℕ) (d : Option Bytes)
    → get_elem? ns id ≡ none
    → set (docs_of vec ns os) id d ≡ docs_of vec ns os
set-outside vec [] os id d h = refl
set-outside vec (m ∷ ns) [] id d h = refl
set-outside vec (m ∷ ns) (p ∷ os) zero d h = cc
set-outside vec (m ∷ ns) (p ∷ os) (suc id) d h =
    ap (◌∷◌ (doc_of vec m p)) (set-outside vec ns os id d h)

pub Held-set :
    (len : ℕ) (ns os : List ℕ) (id n o : ℕ)
    → Held len ns os
    → (n == key_not_found ≡ false → o + n ≤ len)
    → Held len (set ns id n) (set os id o)
Held-set len [] [] id n o h f = tt
Held-set len [] (p ∷ os) zero n o h f = cc
Held-set len [] (p ∷ os) (suc id) n o h f = cc
Held-set len (m ∷ ns) [] id n o h f = cc
Held-set len (m ∷ ns) (p ∷ os) zero n o h f = (f, h.1)
Held-set len (m ∷ ns) (p ∷ os) (suc id) n o h f = (h.0, Held-set len ns os id n o h.1 f)

abbrev pub one_live : ℕ → ℕ
one_live n = if n == key_not_found then 0 else 1

pub live-set :
    (ns : List ℕ) (id n m : ℕ)
    → get_elem? ns id ≡ some n
    → live (set ns id m) + one_live n ≡ live ns + one_live m
live-set [] id n m h = cc
live-set (k ∷ ns) zero n m h =
    rw (ap {B = ℕ} (λ x. elim x [ none ↦ k | some y ↦ y ]) h) (omega arith)
live-set (k ∷ ns) (suc id) n m h = omega (arith, live-set ns id n m h)

pub live_bound : (ns : List ℕ) → live ns ≤ length ns
live_bound [] = omega arith
live_bound (n ∷ ns) = ground (arith, live_bound ns)
