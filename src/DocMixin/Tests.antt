-- ===== src/DocMixin/Tests.antt =====
-- Runs of the document mixin at small inputs.
use mochi_rkv.Prelude.{Option, ℕ, ◌<◌, ◌≡◌, ◌≢◌, refl, arith, true, false, List, [], ◌∷◌, some}
use mochi_rkv.Common.{
  slice, Status, no_more_keys, Bytes, size_mod, success, key_exists, returned, Mode, mode_of,
}
use mochi_rkv.Bytes.{default_mem_cmp}
use mochi_rkv.Bytes.Codec.{to_le}
use mochi_rkv.Bytes.Order.{default_mem_cmp-IsStrictTotal}
use mochi_rkv.MapBackend.{MapDatabase}
use mochi_rkv.MapBackend.Lookups.{keys_at}
use mochi_rkv.MapBackend.Request.{sizes_of}
use mochi_rkv.MapBackend.Rounds.{view}
use mochi_rkv.MapBackend.Plain.{IsPlain}
use mochi_rkv.Filters.{default_doc_filter, collection_filter}
use mochi_rkv.Filters.Endian.{ensure_big_endian}
use mochi_rkv.OrderedMap.{lower_bound}
use mochi_rkv.MapBackend.Listing.{list_key_values, iter}
use mochi_rkv.DocMixin.Listing.{doc_list, doc_iter, listed_ids}
use mochi_rkv.DocMixin.{
  with_metadata, get_metadata, DocDatabase, CollectionMetadata, coll_create, find_cached,
  has_collection, ids_from, metadata_bytes,
}
use mochi_rkv.DocMixin.Keys.{id_from_key, key_from_id}
use mochi_rkv.DocMixin.Docs.{doc_store}
use mochi_rkv.DocMixin.Requests.{doc_view, stored_at}
use mochi_rkv.DocMixin.Stored.{mixin_store_refines, after_store, counted}
use mochi_rkv.DocMixin.Created.{coll_create_answers, with_collection, new_metadata, is_metadata}
use mochi_rkv.DocMixin.Updated.{Updates}

abbrev empty_kv : MapDatabase
empty_kv = record { cmp = default_mem_cmp; db = []; has_migrated = false; watcher = [] }

abbrev empty_docs : DocDatabase
empty_docs = record { kv = empty_kv; cached = [] }

abbrev books : Bytes
books = 98 ∷ []

abbrev five_taken : CollectionMetadata
five_taken = record { size = 3; next_id = 5 }

abbrev library : DocDatabase
library = record { kv = empty_kv; cached = (books, five_taken) ∷ [] }

abbrev no_flags : Mode
no_flags = mode_of 0

no_flags-IsPlain : IsPlain no_flags
unfolding mode_of
no_flags-IsPlain = record { new_only_off = refl; exist_only_off = refl; append_off = refl }

abbrev two_docs : List Bytes
two_docs = (7 ∷ []) ∷ (8 ∷ 9 ∷ []) ∷ []

found_books : find_cached books library.cached ≡ some five_taken
unfolding find_cached
found_books = refl

mixin_store_refines_example :
    (doc_store books no_flags 100
        (keys_at 200 two_docs)
        (sizes_of two_docs)
        2
        ((λ d. d), (λ d. d))
        library
      ≡ (
        returned success,
        ids_from 5 2,
        after_store books no_flags 100 200 two_docs library five_taken,
      ))
    × ((id : ℕ)
        → id < size_mod
        → doc_view books (after_store books no_flags 100 200 two_docs library five_taken) id
          ≡ stored_at 5 two_docs id (doc_view books library id))
    × (find_cached books (after_store books no_flags 100 200 two_docs library five_taken).cached
        ≡ some (counted 2 five_taken))
    × (view (after_store books no_flags 100 200 two_docs library five_taken).kv books
        ≡ some (metadata_bytes (counted 2 five_taken)))
unfolding key_from_id to_le
mixin_store_refines_example =
    mixin_store_refines books no_flags 100 200 two_docs library five_taken refl (omega arith)
      no_flags-IsPlain refl default_mem_cmp-IsStrictTotal found_books (omega arith) (omega arith)
      (omega arith)

coll_create_answers_example :
    (is_metadata (view empty_kv books) ≡ true
      → coll_create books empty_docs ≡ (returned key_exists, empty_docs))
    × (is_metadata (view empty_kv books) ≡ false
        → coll_create books empty_docs ≡ (returned success, with_collection books empty_docs))
    × (has_collection books (with_collection books empty_docs) ≡ (returned success, some true))
    × (find_cached books (with_collection books empty_docs).cached ≡ some new_metadata)
    × ((k : Bytes) → books ≢ k → view (with_collection books empty_docs).kv k ≡ view empty_kv k)
coll_create_answers_example =
    coll_create_answers books refl (omega arith) empty_docs refl default_mem_cmp-IsStrictTotal

abbrev one_update : Updates
one_update = (1, 4 ∷ []) ∷ []

abbrev with_update_new : Mode
with_update_new = mode_of 0x8000

abbrev two_books : DocDatabase
two_books = record {
  kv = record empty_kv {
    db =
        (books, 0 ∷ [])
        ∷ (98 ∷ 0 ∷ 0 ∷ 0 ∷ 0 ∷ 0 ∷ 0 ∷ 0 ∷ 0 ∷ 1 ∷ [], 7 ∷ [])
        ∷ (98 ∷ 0 ∷ 0 ∷ 0 ∷ 0 ∷ 0 ∷ 0 ∷ 0 ∷ 1 ∷ 0 ∷ [], 8 ∷ 9 ∷ [])
        ∷ (99 ∷ [], 5 ∷ [])
        ∷ [];
  };
  cached = (books, record { size = 2; next_id = 257 }) ∷ [];
}

-- The ids are 1 and 256; the key of the metadata and the one behind the collection are left out.
doc_list_test :
    doc_list books true 0 default_doc_filter (0 ∷ 0 ∷ 0 ∷ []) 10 (0 ∷ 0 ∷ 0 ∷ []) two_books ≡ (
      returned success,
      (1, record { value = 1; at = 0; written = 7 ∷ [] })
          ∷ (256, record { value = 2; at = 1; written = 8 ∷ 9 ∷ [] })
          ∷ (no_more_keys, record { value = no_more_keys; at = 3; written = [] })
          ∷ [],
      two_books,
    )
unfolding doc_list with_metadata get_metadata find_cached list_key_values listed_ids key_from_id
    mode_of default_doc_filter lower_bound default_mem_cmp to_le ensure_big_endian collection_filter
doc_list_test = refl

abbrev collect :
    List (Option ℕ × Option Bytes)
    → Option ℕ
    → Option Bytes
    → Status × List (Option ℕ × Option Bytes)
collect calls id doc = (success, (id, doc) ∷ calls)

doc_iter_test :
    doc_iter collect books 0 2 default_doc_filter [] two_books
    ≡ (returned success, (some 256, some (8 ∷ 9 ∷ [])) ∷ [], two_books)
unfolding doc_iter with_metadata get_metadata find_cached iter key_from_id id_from_key mode_of
    default_doc_filter lower_bound default_mem_cmp to_le ensure_big_endian collection_filter slice
doc_iter_test = refl
