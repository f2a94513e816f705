-- ===== src/LogBackend/Listing.antt =====
-- docIter and docList of src/backends/log.cpp. The callback of docList is that of the array backend.
use mochi_rkv.Prelude.{
  ℕ, zero, suc, ◌-◌, Bool, not, List, [], ◌++◌, length, Option, none, some, ltb, leb, if◌then◌else◌,
  ◌&&◌,
}
use mochi_rkv.Common.{Bytes, Status, success, not_found, Ret, returned, fault, add_size}
use mochi_rkv.Filters.{DocFilter, Copied}
use mochi_rkv.ArrayBackend.Listing.{Item, list_doc, fill_items}
use mochi_rkv.LogBackend.Collection.{Collection, fetch_doc, called, uncalled, broken, last_id}
use mochi_rkv.LogBackend.Database.{LogDatabase, find}

module _ {ℓ} {S : Type ℓ} (name : Bytes) (filter : DocFilter)
    (func : ℕ → Copied → S → Status × S) where
  -- while(i < max && id <= coll->last_id()), with fuel; `left` is max - i. The id is advanced by the
  -- callback of `fetch` alone. The result is none where the fuel runs out.
  unfoldable pub iter_loop : ℕ → Collection → ℕ → ℕ → S → Option (Ret × S)
  unfolding fetch_doc
  iter_loop zero c left id s = none
  iter_loop (suc fuel) c left id s =
      let at = λ (left' id' : ℕ). iter_loop fuel c left' id' s in
      let next = λ (s' : S). iter_loop fuel c (left - 1) (add_size id 1) s' in
      if not (ltb 0 left && leb id (last_id c))
      then some (returned success, s)
      else elim (fetch_doc id c) [
        | broken ↦ some (fault, s)
        | uncalled ↦ at left id
        | called none ↦ at left (add_size id 1)
        | called (some doc) ↦
            if not (filter.check name id doc)
            then if filter.should_stop name doc then at 0 id else at left (add_size id 1)
            else (let (st, s') =
                  func id (filter.doc_copy name (filter.doc_size_from name doc) doc) s in
                elim st [ success ↦ next s' | st' ↦ some (returned st', s') ])
      ]

  unfoldable pub doc_iter : ℕ → ℕ → ℕ → LogDatabase → S → Option (Ret × S)
  unfolding find iter_loop
  doc_iter fuel max from_id db s = elim (find name db.collections) [
    | none ↦ some (returned not_found, s)
    | some c ↦ iter_loop fuel c max from_id s
  ]

unfoldable pub doc_list :
    ℕ → Bytes → DocFilter → Bool → ℕ → ℕ → List ℕ → LogDatabase → Option (Ret × List Item)
unfolding doc_iter list_doc fill_items
doc_list fuel name filter packed from_id buf_size doc_sizes db =
    elim (doc_iter name filter (list_doc packed buf_size) fuel (length doc_sizes) from_id db
      (record { offset = 0; rooms = doc_sizes; items = [] })) [
        | none ↦ none
        | some (r, s) ↦ some (r, s.items ++ fill_items s.offset s.rooms)
      ]
