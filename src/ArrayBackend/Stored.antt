-- ===== src/ArrayBackend/Stored.antt =====
-- The documents of a collection, as its clients see them, and the collections whose vectors hold
-- what they promise.
use mochi_rkv.Prelude.{
  ℕ, zero, suc, ◌+◌, ◌≤◌, ◌≡◌, refl, ap, true, false, List, [], ◌∷◌, ◌++◌, length, Bool-cases, inl,
  inr, get_elem?, take, drop, Option, none, some, arith, le→ltb, ◌==◌, if◌then◌else◌,
}
use mochi_rkv.Common.{Bytes, slice, key_not_found}
use mochi_rkv.ArrayBackend.{Collection, record_at}

-- One document: none if there is none.
abbrev pub doc_of : Bytes → ℕ → ℕ → Option Bytes
doc_of vec n off = if n == key_not_found then none else some (take n (drop off vec))

abbrev pub docs_of : Bytes → List ℕ → List ℕ → List (Option Bytes)
docs_of vec (n ∷ sizes) (off ∷ offsets) = doc_of vec n off ∷ docs_of vec sizes offsets
docs_of vec _ _ = []

-- The documents by their ids.
abbrev pub view : Collection → List (Option Bytes)
view c = docs_of c.bytes c.sizes c.offsets

abbrev pub joined : Option (Option Bytes) → Option Bytes
joined none = none
joined (some doc) = doc

-- Each size has its offset, and a document lies inside of the vector of `len` bytes.
abbrev pub Held : ℕ → List ℕ → List ℕ → Type 0
Held len [] [] = Unit
Held len (n ∷ sizes) (off ∷ offsets) =
    (n == key_not_found ≡ false → off + n ≤ len) × Held len sizes offsets
Held len _ _ = true ≡ false

-- The number of documents.
abbrev pub live : List ℕ → ℕ
live [] = 0
live (n ∷ sizes) = (if n == key_not_found then 0 else 1) + live sizes

pub record IsStored (c : Collection) : Type 0 where
  pub held : Held (length c.bytes) c.sizes c.offsets
  pub counted : c.count ≡ live c.sizes

slice_inside :
    (vec : Bytes) (off n : ℕ)
    → off + n ≤ length vec
    → slice vec off n ≡ some (take n (drop off vec))
unfolding slice
slice_inside vec off n h = rw (le→ltb (length vec) (off + n) h)

record_at_lem :
    (vec : Bytes) (k : ℕ) (sizes offsets : List ℕ) (id : ℕ)
    → Held (length vec) sizes offsets
    → record_at (record { bytes = vec; count = k; offsets = offsets; sizes = sizes }) id
      ≡ some (joined (get_elem? (docs_of vec sizes offsets) id))
unfolding record_at
record_at_lem vec k [] [] id h = refl
record_at_lem vec k [] (o ∷ offsets) id h = cc
record_at_lem vec k (n ∷ sizes) [] id h = cc
record_at_lem vec k (n ∷ sizes) (o ∷ offsets) zero h = elim (Bool-cases (n == key_not_found)) [
  | inl absent ↦ rw absent refl
  | inr there ↦ rw there (rw (slice_inside vec o n (h.0 there)) refl)
]
record_at_lem vec k (n ∷ sizes) (o ∷ offsets) (suc id) h = record_at_lem vec k sizes offsets id h.1

-- The read of an id, in a collection whose vectors hold its documents.
pub record_at-view :
    (c : Collection) (id : ℕ) → IsStored c → record_at c id ≡ some (joined (get_elem? (view c) id))
record_at-view c id v = record_at_lem c.bytes c.count c.sizes c.offsets id v.held

take-drop-append :
    (n off : ℕ) (a b : Bytes)
    → off + n ≤ length a
    → take n (drop off (a ++ b)) ≡ take n (drop off a)
take-drop-append zero off a b h = refl
take-drop-append (suc n) zero [] b h = absurd (omega arith)
take-drop-append (suc n) zero (x ∷ a) b h = ap (◌∷◌ x) (take-drop-append n zero a b (omega arith))
take-drop-append (suc n) (suc off) [] b h = absurd (omega arith)
take-drop-append (suc n) (suc off) (x ∷ a) b h = take-drop-append (suc n) off a b (omega arith)

-- What is added to the vector does not change the documents.
pub docs_of-grown :
    (vec more : Bytes) (sizes offsets : List ℕ)
    → Held (length vec) sizes offsets
    → docs_of (vec ++ more) sizes offsets ≡ docs_of vec sizes offsets
docs_of-grown vec more [] [] h = refl
docs_of-grown vec more [] (o ∷ offsets) h = refl
docs_of-grown vec more (n ∷ sizes) [] h = refl
docs_of-grown vec more (n ∷ sizes) (o ∷ offsets) h =
    rw (docs_of-grown vec more sizes offsets h.1) (elim (Bool-cases (n == key_not_found)) [
      | inl absent ↦ rw (absent) refl
      | inr there ↦ rw (there) (rw (take-drop-append n o vec more (h.0 there)) refl)
    ])

pub Held-grown :
    (len more : ℕ) (sizes offsets : List ℕ)
    → Held len sizes offsets
    → Held (len + more) sizes offsets
Held-grown len more [] [] h = tt
Held-grown len more [] (o ∷ offsets) h = h
Held-grown len more (n ∷ sizes) [] h = h
Held-grown len more (n ∷ sizes) (o ∷ offsets) h =
    (λ e. omega (arith, h.0 e), Held-grown len more sizes offsets h.1)
