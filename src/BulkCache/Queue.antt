-- ===== src/BulkCache/Queue.antt =====
-- The list of lru_bulk_cache: its nodes are numbered downwards from the front.
use mochi_rkv.Prelude.{
  ℕ, zero, suc, ◌≤◌, ◌<◌, ◌≡◌, refl, ap, arith, false, ◌==◌, List, [], ◌∷◌, length, take, Option,
  none, some, if◌then◌else◌, Bool-cases, inl, inr,
}
use mochi_rkv.BulkCache.{Buffer}
use mochi_rkv.BulkCache.Lru.{erase_node, back, pop_back}

-- The buffer of a node.
abbrev pub find_node : ℕ → List (ℕ × Buffer) → Option Buffer
find_node id [] = none
find_node id ((j, b) ∷ q) = if j == id then some b else find_node id q

-- The nodes are below n, and go down.
abbrev pub IsDescending : ℕ → List (ℕ × Buffer) → Type 0
IsDescending n [] = Unit {0}
IsDescending n ((j, b) ∷ q) = (j < n) × IsDescending j q

pub IsDescending-weaken :
    (n k : ℕ) (q : List (ℕ × Buffer)) → n ≤ k → IsDescending n q → IsDescending k q
IsDescending-weaken n k [] h d = tt
IsDescending-weaken n k ((j, b) ∷ q) h d = (omega (arith, h, d.0), d.1)

pub find_node-none :
    (n id : ℕ) (q : List (ℕ × Buffer)) → IsDescending n q → n ≤ id → find_node id q ≡ none
find_node-none n id [] d h = refl
find_node-none n id ((j, b) ∷ q) d h = ground (arith, find_node-none j id q d.1)

pub IsDescending-erase_node :
    (n id : ℕ) (q : List (ℕ × Buffer)) → IsDescending n q → IsDescending n (erase_node id q)
unfolding erase_node
IsDescending-erase_node n id [] d = tt
IsDescending-erase_node n id ((j, b) ∷ q) d = elim (Bool-cases (j == id)) [
  | inl t ↦ rw t (IsDescending-weaken j n q (omega (arith, d.0)) d.1)
  | inr t ↦ rw t (d.0, IsDescending-erase_node j id q d.1)
]

pub find_node-erase_node :
    (n id k : ℕ) (q : List (ℕ × Buffer))
    → IsDescending n q
    → find_node k (erase_node id q) ≡ (if id == k then none else find_node k q)
unfolding erase_node
find_node-erase_node n id k [] d = ground arith
find_node-erase_node n id k ((j, b) ∷ q) d =
    ground (arith, find_node-erase_node j id k q d.1, find_node-none j k q d.1)

pub length-erase_node : (id : ℕ) (q : List (ℕ × Buffer)) → length (erase_node id q) ≤ length q
unfolding erase_node
length-erase_node id [] = omega arith
length-erase_node id ((j, b) ∷ q) = ground (arith, length-erase_node id q)

-- The last node, which pop_back erases.
pub find_node-back :
    (n id : ℕ) (b : Buffer) (q : List (ℕ × Buffer))
    → IsDescending n q
    → back q ≡ some (id, b)
    → (id < n) × (find_node id q ≡ some b)
unfolding back
find_node-back n id b [] d h = ground arith
find_node-back n id b ((j, c) ∷ []) d h = ground arith
find_node-back n id b ((j, c) ∷ x ∷ q) d h = ground (arith, find_node-back j id b (x ∷ q) d.1 h)

pub pop_back-erase_node :
    (n id : ℕ) (b : Buffer) (q : List (ℕ × Buffer))
    → IsDescending n q
    → back q ≡ some (id, b)
    → pop_back q ≡ erase_node id q
unfolding back pop_back erase_node
pop_back-erase_node n id b [] d h = refl
pop_back-erase_node n id b ((j, c) ∷ []) d h = ground arith
pop_back-erase_node n id b ((j, c) ∷ x ∷ q) d h =
    let e : (j == id) ≡ false = ground (arith, (find_node-back j id b (x ∷ q) d.1 h).0) in
    rw e (ap (◌∷◌ (j, c)) (pop_back-erase_node j id b (x ∷ q) d.1 h))

pub pop_back-take : (n : ℕ) (q : List (ℕ × Buffer)) → length q ≡ suc n → pop_back q ≡ take n q
unfolding pop_back
pop_back-take n [] h = absurd (omega (arith, h))
pop_back-take zero (x ∷ []) h = refl
pop_back-take (suc n) (x ∷ []) h = absurd (omega (arith, h))
pop_back-take zero (x ∷ y ∷ q) h = absurd (omega (arith, h))
pop_back-take (suc n) (x ∷ y ∷ q) h = ap (◌∷◌ x) (pop_back-take n (y ∷ q) (omega (arith, h)))

-- There is a last node where there is one.
pub back-some :
    (x : ℕ × Buffer) (q : List (ℕ × Buffer))
    → (id : ℕ) × ((b : Buffer) × (back (x ∷ q) ≡ some (id, b)))
unfolding back
back-some (id, b) [] = (id, (b, refl))
back-some x (y ∷ q) = back-some y q
