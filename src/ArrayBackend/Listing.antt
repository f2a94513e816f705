-- ===== src/ArrayBackend/Listing.antt =====
-- docIter and docList of src/backends/array.cpp.
use mochi_rkv.Prelude.{
  ℕ, zero, suc, ◌-◌, Bool, not, List, [], ◌∷◌, ◌++◌, length, Option, none, some, ltb, if◌then◌else◌,
}
use mochi_rkv.Common.{
  Bytes, Status, success, not_found, stop_iteration, Ret, returned, fault, add_size, no_more_keys,
  size_too_small,
}
use mochi_rkv.Filters.{DocFilter, Copied}
use mochi_rkv.MapBackend.Read.{Slot, only}
use mochi_rkv.ArrayBackend.{Collection, ArrayDatabase, find, record_at}

-- A callback on an id and a document (the size that the filter's copy returns, and what it copied),
-- which keeps a state S.
module _ {ℓ} {S : Type ℓ} (name : Bytes) (filter : DocFilter)
    (func : ℕ → Copied → S → Status × S) where
  -- The loop of docIter over the `left` ids from `id` on; `max` is what is left of it.
  unfoldable pub iter_loop : Collection → ℕ → ℕ → ℕ → S → Ret × S
  unfolding record_at
  iter_loop c max zero id s = (returned success, s)
  iter_loop c zero (suc left) id s = (returned success, s)
  iter_loop c (suc max) (suc left) id s =
      let skip = iter_loop c (suc max) left (suc id) s in
      let rest = iter_loop c max left (suc id) in
      elim (record_at c id) [
        | none ↦ (fault, s)
        | some none ↦ skip
        | some (some doc) ↦
            if not (filter.check name id doc)
            then if filter.should_stop name doc then (returned success, s) else skip
            else (let (st, s') =
                  func id (filter.doc_copy name (filter.doc_size_from name doc) doc) s in
                elim st [ success ↦ rest s' | st' ↦ (returned st', s') ])
      ]

  unfoldable pub doc_iter : ℕ → ℕ → ArrayDatabase → S → Ret × S
  unfolding find iter_loop
  doc_iter max from_id db s = elim (find name db.collections) [
    | none ↦ (returned not_found, s)
    | some c ↦ iter_loop c max (length c.sizes - from_id) from_id s
  ]

-- What docList writes for one document: the id, where it is set, with the size and the copy.
abbrev pub Item : Type 0
Item = Option ℕ × Slot

-- The variables of the callback: the offset, the sizes from `i` on, and what was written.
pub record ListState : Type 0 where
  pub offset : ℕ
  pub rooms : List ℕ
  pub items : List Item

-- The callback of docList. It is never called where no size is left.
unfoldable pub list_doc : Bool → ℕ → ℕ → Copied → ListState → Status × ListState
list_doc packed buf_size id doc s = elim s.rooms [
  | [] ↦ (success, s)
  | room ∷ rooms ↦
      if packed
      then if ltb buf_size (add_size s.offset doc.0) then (stop_iteration, s) else (
        success,
        record {
          offset = add_size s.offset doc.0;
          rooms = rooms;
          items =
              s.items ++ (some id, record { value = doc.0; at = s.offset; written = doc.1 }) ∷ [];
        },
      )
      else if ltb room doc.0
      then (
        success,
        record {
          offset = s.offset;
          rooms = rooms;
          items = s.items ++ (none, only size_too_small s.offset) ∷ [];
        },
      )
      else (
        success,
        record {
          offset = add_size s.offset room;
          rooms = rooms;
          items =
              s.items ++ (some id, record { value = doc.0; at = s.offset; written = doc.1 }) ∷ [];
        },
      )
]

-- The ids and sizes behind the last document are set to YOKAN_NO_MORE_DOCS.
unfoldable pub fill_items : ℕ → List ℕ → List Item
fill_items at [] = []
fill_items at (room ∷ rooms) = (some no_more_keys, only no_more_keys at) ∷ fill_items at rooms

unfoldable pub doc_list :
    Bytes → DocFilter → Bool → ℕ → ℕ → List ℕ → ArrayDatabase → Ret × List Item
unfolding doc_iter list_doc fill_items
doc_list name filter packed from_id buf_size doc_sizes db =
    let (r, s) =
      doc_iter name filter (list_doc packed buf_size) (length doc_sizes) from_id db
        (record { offset = 0; rooms = doc_sizes; items = [] }) in
    (r, s.items ++ fill_items s.offset s.rooms)
