-- ===== src/BulkCache/Evicted.antt =====
-- The end of lru_bulk_cache_release: which buffers stay in the list.
use mochi_rkv.Prelude.{
  ℕ, zero, suc, ◌≤◌, ◌≡◌, refl, sym, ap, arith, true, false, List, [], ◌∷◌, ◌++◌, length, take,
  Option, none, some, Bool-cases, inl, inr, ltb, ltb→lt, ltb→le,
}
use mathlib.Core.List.{append-nil}
use mochi_rkv.BulkCache.{BulkMode, Buffer, Entries, erase_at}
use mochi_rkv.BulkCache.Lru.{Lane, back, pop_back, evict}
use mochi_rkv.BulkCache.Queue.{find_node-back, pop_back-erase_node, back-some}
use mochi_rkv.BulkCache.Linked.{IsLinked, IsLinked-without}

-- The buffers of a list, the one that was released last at the front.
abbrev pub buffers : List (ℕ × Buffer) → List Buffer
buffers [] = []
buffers ((id, b) ∷ q) = b ∷ buffers q

abbrev pub freed_buffers : Option Buffer → List Buffer
freed_buffers none = []
freed_buffers (some b) = b ∷ []

pub length-buffers : (q : List (ℕ × Buffer)) → length (buffers q) ≡ length q
length-buffers [] = refl
length-buffers ((id, b) ∷ q) = ap suc (length-buffers q)

take_all : {A : Type 0} (n : ℕ) (xs : List A) → length xs ≤ n → take n xs ≡ xs
take_all zero [] h = refl
take_all zero (x ∷ xs) h = absurd (omega (arith, h))
take_all (suc n) [] h = refl
take_all (suc n) (x ∷ xs) h = ap (◌∷◌ x) (take_all n xs (omega (arith, h)))

take_snoc : {A : Type 0} (n : ℕ) (xs : List A) (x : A) → length xs ≡ n → take n (xs ++ x ∷ []) ≡ xs
take_snoc zero [] x h = refl
take_snoc zero (y ∷ xs) x h = absurd (omega (arith, h))
take_snoc (suc n) [] x h = absurd (omega (arith, h))
take_snoc (suc n) (y ∷ xs) x h = ap (◌∷◌ y) (take_snoc n xs x (omega (arith, h)))

-- list.pop_back() takes the last buffer.
buffers-pop_back :
    (id : ℕ) (b : Buffer) (q : List (ℕ × Buffer))
    → back q ≡ some (id, b)
    → buffers q ≡ buffers (pop_back q) ++ b ∷ []
unfolding back pop_back
buffers-pop_back id b [] h = ground arith
buffers-pop_back id b ((j, c) ∷ []) h = ground arith
buffers-pop_back id b ((j, c) ∷ x ∷ q) h = ap (◌∷◌ c) (buffers-pop_back id b (x ∷ q) h)

length-pop_back : (x : ℕ × Buffer) (q : List (ℕ × Buffer)) → length (pop_back (x ∷ q)) ≡ length q
unfolding pop_back
length-pop_back x [] = refl
length-pop_back x (y ∷ q) = ap suc (length-pop_back y q)

-- What the eviction comes to: it ends, the oldest buffer goes where there is one too many, and the
-- others stay, in their order.
pub record Kept (mode : BulkMode) (n capacity : ℕ) (l : Lane) : Type 0 where
  pub freed : Option Buffer
  pub after : Lane
  pub ended : evict capacity l ≡ some (freed, after)
  pub linked : IsLinked mode n after
  pub newest : buffers after.queue ≡ take capacity (buffers l.queue)
  pub all : buffers l.queue ≡ buffers after.queue ++ freed_buffers freed

module _ (mode : BulkMode) (n capacity : ℕ) where
  Kept-all :
      (l : Lane)
      → IsLinked mode n l
      → ltb capacity (length l.queue) ≡ false
      → Kept mode n capacity l
  unfolding evict
  Kept-all l i e = record {
    freed = none;
    after = l;
    ended = rw (e, evict) refl;
    linked = i;
    newest =
        sym (
          take_all capacity (buffers l.queue)
            (omega (arith, length-buffers l.queue, ltb→le _ _ e)));
    all = sym (append-nil (buffers l.queue));
  }

  Kept-last :
      (x : ℕ × Buffer) (q : List (ℕ × Buffer)) (m : Entries ℕ)
      → IsLinked mode n (record { queue = x ∷ q; entries = m })
      → ltb capacity (suc (length q)) ≡ true
      → suc (length q) ≤ suc capacity
      → Kept mode n capacity (record { queue = x ∷ q; entries = m })
  unfolding evict
  Kept-last x q m i e h =
      let (id, (b, eb)) = back-some x q in
      let found = i.listed id b (find_node-back n id b (x ∷ q) i.descending eb).1 in
      let without = IsLinked-without mode n (record { queue = x ∷ q; entries = m }) i b id found in
      let same = pop_back-erase_node n id b (x ∷ q) i.descending eb in
      let whole = buffers-pop_back id b (x ∷ q) eb in
      record {
        freed = some b;
        after = record { queue = pop_back (x ∷ q); entries = erase_at b m };
        ended = rw (e, evict) (rw (eb, evict) (rw (found, evict) refl));
        linked = rw same without;
        newest = rw whole (
            sym (
              take_snoc capacity (buffers (pop_back (x ∷ q))) b (
                omega
                  (arith, length-buffers (pop_back (x ∷ q)), length-pop_back x q, ltb→lt _ _ e))));
        all = whole;
      }

  kept :
      (q : List (ℕ × Buffer)) (m : Entries ℕ)
      → IsLinked mode n (record { queue = q; entries = m })
      → length q ≤ suc capacity
      → Kept mode n capacity (record { queue = q; entries = m })
  kept [] m i h = Kept-all _ i (ground arith)
  kept (x ∷ q) m i h = elim (Bool-cases (ltb capacity (suc (length q)))) [
    | inl e ↦ Kept-last x q m i e h
    | inr e ↦ Kept-all _ i e
  ]

-- The eviction over a lane with at most one buffer too many.
pub evict-Kept :
    (mode : BulkMode) (n capacity : ℕ) (l : Lane)
    → IsLinked mode n l
    → length l.queue ≤ suc capacity
    → Kept mode n capacity l
evict-Kept mode n capacity l = kept mode n capacity l.queue l.entries
