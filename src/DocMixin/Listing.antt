-- ===== src/DocMixin/Listing.antt =====
-- docList and docIter of include/yokan/doc-mixin.hpp. The map is sorted, so both list its keys: the
-- branches for a database that is not sorted are left out, and NO_PREFIX is a mode that it supports.
use mochi_rkv.Prelude.{
  ℕ, ◌*◌, Bool, false, List, [], ◌∷◌, length, replicate, Option, none, some, ◌==◌, if◌then◌else◌,
}
use mochi_rkv.Common.{Bytes, Status, success, invalid_arg, Ret, returned, mode_of, no_more_keys}
use mochi_rkv.Bytes.Codec.{of_le}
use mochi_rkv.Filters.{KeyValueFilter, DocFilter, collection_filter, sizeof_id}
use mochi_rkv.Filters.Endian.{ensure_big_endian}
use mochi_rkv.LogBackend.Collection.{on_success}
use mochi_rkv.MapBackend.Read.{Slot}
use mochi_rkv.MapBackend.Listing.{is_nil, list_key_values, iter, ListedPairs}
use mochi_rkv.DocMixin.{DocDatabase, with_metadata}
use mochi_rkv.DocMixin.Keys.{key_from_id, id_from_key}

-- FilterFactory::docToKeyValueFilter
abbrev pub doc_to_key_value_filter : DocFilter → Bytes → KeyValueFilter
doc_to_key_value_filter filter collection = collection_filter (mode_of 0x40) collection filter

-- The 8 bytes at an id: those of the key that was copied there, or what was there before.
abbrev id_memory : ℕ → Bytes → ℕ
id_memory old [] = old
id_memory old (b ∷ bs) = of_le (b ∷ bs)

-- The ids behind the call of listKeyValues, each with the slot of its document. The keys of
-- documents are copied without their prefix, 8 bytes each, so the i-th is at the i-th id.
unfoldable pub listed_ids : List ℕ → List (Slot × Slot) → List (ℕ × Slot)
listed_ids (old ∷ olds) ((key, doc) ∷ slots) =
    let id =
      if key.value == no_more_keys
      then no_more_keys
      else ensure_big_endian (id_memory old key.written) in
    (id, doc) ∷ listed_ids olds slots
listed_ids _ _ = []

abbrev listed_docs : List ℕ → Status × Option ListedPairs → Ret × List (ℕ × Slot)
listed_docs ids (st, none) = (returned st, [])
listed_docs ids (st, some (slots, keys_size, docs_size)) =
    on_success (returned st) (returned success, listed_ids ids slots) (returned st, [])

-- docList: `ids` is what the ids hold before the call.
unfoldable pub doc_list :
    Bytes
    → Bool
    → ℕ
    → DocFilter
    → List ℕ
    → ℕ
    → List ℕ
    → DocDatabase
    → Ret × List (ℕ × Slot) × DocDatabase
unfolding listed_ids
doc_list name packed from_id filter ids docs_size doc_sizes db =
    if is_nil name
    then (returned invalid_arg, [], db)
    else with_metadata name db [] λ m db1.
      let (r, listed) = listed_docs ids (
        list_key_values (mode_of 0x41) packed (key_from_id name from_id)
          (doc_to_key_value_filter filter name) (length ids * sizeof_id)
          (replicate (length ids) sizeof_id) docs_size doc_sizes db1.kv) in
      (r, listed, db1)

module _ {S : Type 0} (func : S → Option ℕ → Option Bytes → Status × S) where
  -- docIter, over the state of the callback.
  unfoldable pub doc_iter : Bytes → ℕ → ℕ → DocFilter → S → DocDatabase → Ret × S × DocDatabase
  doc_iter name max from_id filter t db =
      if is_nil name
      then (returned invalid_arg, t, db)
      else with_metadata name db t λ m db1.
        let kv_func = λ (u : S) (key : Bytes) (val : Option Bytes).
          func u (id_from_key (length name) key) val in
        let (st, u) =
          iter max (doc_to_key_value_filter filter name) false kv_func (mode_of 1)
            (key_from_id name from_id) t db1.kv in
        (returned st, u, db1)
