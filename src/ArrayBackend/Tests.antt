-- ===== src/ArrayBackend/Tests.antt =====
-- Runs of the array backend at small inputs.
use mochi_rkv.Prelude.{
  ℕ, ◌-◌, ◌^◌, ◌≡◌, refl, true, false, List, [], ◌∷◌, ◌++◌, none, some, map, arith,
}
use mochi_rkv.Common.{Bytes, success, returned, Mode, mode_of, key_not_found, slice}
use mochi_rkv.MapBackend.Request.{concat, sizes_of}
use mochi_rkv.ArrayBackend.{Collection, ArrayDatabase, find, replace, record_at}
use mochi_rkv.ArrayBackend.Docs.{doc_store, doc_load, doc_erase, load_each}
use mochi_rkv.ArrayBackend.Stored.{view, IsStored}
use mochi_rkv.ArrayBackend.Store.{store_appends, ids_from}
use mochi_rkv.ArrayBackend.Loads.{load_answers, answers, laid}
use mochi_rkv.ArrayBackend.Erase.{doc_erase_refines, erased}

abbrev books : Bytes
books = 98 ∷ []

abbrev shelf : Collection
shelf = record {
  bytes = 7 ∷ 8 ∷ 9 ∷ [];
  count = 1;
  offsets = 0 ∷ key_not_found ∷ [];
  sizes = 3 ∷ key_not_found ∷ [];
}

abbrev library : ArrayDatabase
library = record { collections = (books, shelf) ∷ []; has_migrated = false }

shelf-IsStored : IsStored shelf
shelf-IsStored = record { held = ((λ e. omega arith), ((λ e. cc), tt)); counted = refl }

found_shelf : find books library.collections ≡ some shelf
unfolding find
found_shelf = refl

view-shelf : view shelf ≡ some (7 ∷ 8 ∷ 9 ∷ []) ∷ none ∷ []
view-shelf = refl

-- A document that does not fit is skipped without a move of the pointer: the next one is copied to
-- the start of the buffer, the place of the first.
load_each_run :
    load_each
      (record shelf { sizes = 2 ∷ 1 ∷ []; offsets = 0 ∷ 2 ∷ [] })
      0
      (0 ∷ 1 ∷ [])
      (1 ∷ 1 ∷ [])
    ≡ (
      returned success,
      record { value = 2 ^ 64 - 2; at = 0; written = [] }
          ∷ record { value = 1; at = 0; written = 9 ∷ [] }
          ∷ [],
    )
unfolding load_each record_at slice
load_each_run = refl

abbrev new_docs : List Bytes
new_docs = (1 ∷ 2 ∷ []) ∷ [] ∷ []

store_appends_example :
    (c' : Collection) × (doc_store books (concat new_docs) (sizes_of new_docs) library ≡ (
      returned success,
      ids_from 2 new_docs,
      record library { collections = replace books c' library.collections },
    ))
    × (view c' ≡ view shelf ++ map some new_docs)
    × IsStored c'
store_appends_example =
    store_appends books new_docs library shelf found_shelf shelf-IsStored (omega arith)

load_answers_example :
    doc_load books true (1 ∷ 0 ∷ []) 3 (0 ∷ 0 ∷ []) library
    ≡ (returned success, laid 0 (answers (view shelf) (1 ∷ 0 ∷ [])))
load_answers_example =
    load_answers books (1 ∷ 0 ∷ []) 3 (0 ∷ 0 ∷ []) library shelf found_shelf shelf-IsStored
      (omega arith)

doc_erase_refines_example :
    (c' : Collection) × (doc_erase books (0 ∷ 7 ∷ []) library
      ≡ (success, record library { collections = replace books c' library.collections }))
    × (view c' ≡ erased (0 ∷ 7 ∷ []) (view shelf))
    × IsStored c'
doc_erase_refines_example =
    doc_erase_refines books (0 ∷ 7 ∷ []) library shelf found_shelf shelf-IsStored (omega arith)

abbrev updates : List (ℕ × Bytes)
updates = (3, 4 ∷ []) ∷ (0, 5 ∷ 6 ∷ []) ∷ []

abbrev update_new : Mode
update_new = mode_of 32768
