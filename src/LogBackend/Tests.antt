-- ===== src/LogBackend/Tests.antt =====
-- Runs of the log backend at small inputs.
use mochi_rkv.Prelude.{
  ℕ, zero, suc, ◌+◌, ◌≡◌, refl, true, false, List, [], ◌∷◌, ◌++◌, length, none, some, map,
  replicate, arith,
}
use mochi_rkv.Common.{Bytes, Status, success, size_error, Ret, returned, fault, key_not_found}
use mochi_rkv.Bytes.Codec.{of_le}
use mochi_rkv.Filters.{Copied, default_doc_filter}
use mochi_rkv.MapBackend.Request.{concat, sizes_of}
use mochi_rkv.ArrayBackend.Store.{ids_from}
use mochi_rkv.ArrayBackend.Erase.{erased}
use mochi_rkv.ArrayBackend.Loads.{answers}
use mochi_rkv.LogBackend.Collection.{Collection, append, erase, chunk_file}
use mochi_rkv.LogBackend.Update.{update}
use mochi_rkv.LogBackend.Database.{LogDatabase, find, stored, doc_store, doc_load, doc_erase}
use mochi_rkv.LogBackend.Listing.{doc_iter}
use mochi_rkv.LogBackend.Cache
use mochi_rkv.LogBackend.Stored.{view, IsStored}
use mochi_rkv.LogBackend.Append.{doc_store_refines}
use mochi_rkv.LogBackend.Reads.{load_until_full, packed}
use mochi_rkv.LogBackend.Erase.{erased_refines}
use mochi_rkv.LogBackend.Iterated.{doc_iter_spins, doc_iter_returns}
use mochi_rkv.LogBackend.Broken.{update_erased_faults, append_too_large}

abbrev logs : Bytes
logs = 108 ∷ []

-- A chunk of 16 bytes with a document of 3, and an entry of a document that was erased.
abbrev one_doc : Collection
one_doc = record {
  header = record { coll_size = 1; next_id = 2; last_chunk_id = 0 };
  entries =
      record { chunk = 0; offset = 8; size = 3; allocated = 3 }
      ∷ record {
        chunk = key_not_found;
        offset = key_not_found;
        size = key_not_found;
        allocated = 2;
      }
      ∷ [];
  meta_size = 128;
  chunks = (11 ∷ 0 ∷ 0 ∷ 0 ∷ 0 ∷ 0 ∷ 0 ∷ 0 ∷ 7 ∷ 8 ∷ 9 ∷ 0 ∷ 0 ∷ 0 ∷ 0 ∷ 0 ∷ []) ∷ [];
  chunk_size = 16;
}

sized_one_doc : (i : ℕ) → length (chunk_file one_doc i) ≡ 16
sized_one_doc zero = refl
sized_one_doc (suc i) = refl

one_doc-IsStored : IsStored one_doc
unfolding of_le
one_doc-IsStored = record {
  small = omega arith;
  sized = sized_one_doc;
  from_eight = omega arith;
  in_chunk = omega arith;
  entered = refl;
  mapped = omega arith;
  with_entry = omega arith;
  held = ((λ e. (omega arith, omega arith, omega arith, λ l. omega arith)), ((λ e. cc), tt));
  counted = refl;
}

abbrev journal : LogDatabase
journal = record {
  collections = (logs, one_doc) ∷ [];
  left = [];
  chunk_size = 16;
  has_migrated = false;
}

found_one_doc : find logs journal.collections ≡ some one_doc
unfolding find
found_one_doc = refl

view-one_doc : view one_doc ≡ some (7 ∷ 8 ∷ 9 ∷ []) ∷ none ∷ []
view-one_doc = refl

abbrev entries : List Bytes
entries = (1 ∷ 2 ∷ 3 ∷ 4 ∷ 5 ∷ 6 ∷ []) ∷ (3 ∷ []) ∷ []

doc_store_refines_example :
    (c' : Collection) × (doc_store logs (concat entries) (sizes_of entries) journal
      ≡ (returned success, ids_from 2 entries, stored logs journal c'))
    × (view c' ≡ view one_doc ++ map some entries)
    × IsStored c'
doc_store_refines_example =
    doc_store_refines logs entries journal one_doc found_one_doc one_doc-IsStored
      (omega arith, (omega arith, tt))

load_until_full_example :
    doc_load logs true (1 ∷ 0 ∷ 5 ∷ 0 ∷ []) 4 (0 ∷ 0 ∷ 0 ∷ 0 ∷ []) journal
    ≡ (returned success, packed 0 4 (answers (view one_doc) (1 ∷ 0 ∷ 5 ∷ 0 ∷ [])))
load_until_full_example =
    load_until_full logs (1 ∷ 0 ∷ 5 ∷ 0 ∷ []) 4 (0 ∷ 0 ∷ 0 ∷ 0 ∷ []) journal one_doc found_one_doc
      one_doc-IsStored

erased_refines_example :
    (c' : Collection) × (doc_erase logs (0 ∷ 1 ∷ 7 ∷ []) journal
      ≡ (success, stored logs journal c'))
    × (view c' ≡ erased (0 ∷ 1 ∷ 7 ∷ []) (view one_doc))
    × IsStored c'
erased_refines_example =
    erased_refines logs (0 ∷ 1 ∷ 7 ∷ []) journal one_doc found_one_doc one_doc-IsStored
      (omega arith)

abbrev count_docs : ℕ → Copied → ℕ → Status × ℕ
count_docs id doc n = (success, n + 1)

doc_iter_returns_example :
    (r : Ret × ℕ) × (doc_iter logs default_doc_filter count_docs 3 10 0 journal 0 ≡ some r)
doc_iter_returns_example =
    doc_iter_returns logs default_doc_filter count_docs 3 10 0 journal one_doc 0 found_one_doc
      one_doc-IsStored (omega arith) (omega arith) (omega arith)

abbrev no_doc : Collection
no_doc = record {
  header = record { coll_size = 0; next_id = 0; last_chunk_id = 0 };
  entries = [];
  meta_size = 128;
  chunks = [];
  chunk_size = 16;
}

abbrev blank : LogDatabase
blank = record {
  collections = (logs, no_doc) ∷ [];
  left = [];
  chunk_size = 16;
  has_migrated = false;
}

found_no_doc : find logs blank.collections ≡ some no_doc
unfolding find
found_no_doc = refl

doc_iter_spins_example : doc_iter logs default_doc_filter count_docs 9 10 0 blank 0 ≡ none
doc_iter_spins_example =
    doc_iter_spins logs default_doc_filter count_docs 9 10 0 blank no_doc 0 found_no_doc refl
      (omega arith) (omega arith)

update_erased_faults_example : (update (0 ∷ []) (5 ∷ 6 ∷ []) (2 ∷ []) (erase 0 one_doc).1).0 ≡ fault
update_erased_faults_example =
    update_erased_faults 0 5 (6 ∷ []) one_doc one_doc-IsStored (omega arith) (omega arith) refl
      (omega arith) (omega arith) (omega arith)

append_too_large_example :
    (c' : Collection) × (append (replicate 9 1) (9 ∷ []) one_doc
      ≡ (returned size_error, 2 ∷ [], c'))
    × (c'.header.next_id ≡ 2)
    × (c'.header.last_chunk_id ≡ 1)
append_too_large_example =
    append_too_large (replicate 9 1) one_doc one_doc-IsStored (omega arith) (omega arith)
      (omega arith)

-- A cache of two objects: the third takes the place of the one that was used least recently.
cache_run : Cache.get 2 (λ (id : ℕ). id) 3 ((2, 2) ∷ (1, 1) ∷ []) ≡ some (3, (3, 3) ∷ (2, 2) ∷ [])
unfolding Cache.get
cache_run = refl
