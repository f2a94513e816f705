-- ===== src/LogBackend/Cache.antt =====
-- LRUCache of src/backends/log.cpp. The list is m_access_list, the least recently used last; the
-- map of iterators finds an entry of the list by its id.
use mochi_rkv.Prelude.{ℕ, List, [], ◌∷◌, length, Option, none, some, leb, ◌==◌, if◌then◌else◌}

module _ {ℓ} {T : Type ℓ} where
  unfoldable pub find : ℕ → List (ℕ × T) → Option T
  find id [] = none
  find id ((other, obj) ∷ l) = let rest = find id l in if id == other then some obj else rest

  -- The list without the entry of the id.
  unfoldable pub unlink : ℕ → List (ℕ × T) → List (ℕ × T)
  unlink id [] = []
  unlink id ((other, obj) ∷ l) =
      let rest = unlink id l in if id == other then l else (other, obj) ∷ rest

  -- m_access_list.pop_back()
  unfoldable pub pop_back : List (ℕ × T) → List (ℕ × T)
  pop_back [] = []
  pop_back (e ∷ []) = []
  pop_back (e ∷ e' ∷ l) = e ∷ pop_back (e' ∷ l)

  -- LRUCache::put; none for the back() of an empty list.
  unfoldable pub put : ℕ → ℕ → T → List (ℕ × T) → Option (List (ℕ × T))
  unfolding find unlink pop_back
  put max_size id obj l = elim (find id l) [
    | some old ↦ some ((id, obj) ∷ unlink id l)
    | none ↦
        if leb max_size (length l)
        then elim l [ [] ↦ none | e ∷ l' ↦ some ((id, obj) ∷ pop_back (e ∷ l')) ]
        else some ((id, obj) ∷ l)
  ]

  -- LRUCache::get: the object, and the list behind the call.
  unfoldable pub get : ℕ → (ℕ → T) → ℕ → List (ℕ × T) → Option (T × List (ℕ × T))
  unfolding find unlink put
  get max_size make id l = elim (find id l) [
    | some obj ↦ some (obj, (id, obj) ∷ unlink id l)
    | none ↦ elim (put max_size id (make id) l) [ none ↦ none | some l' ↦ some (make id, l') ]
  ]
