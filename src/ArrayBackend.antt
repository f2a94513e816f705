-- ===== src/ArrayBackend.antt =====
-- src/backends/array.cpp: the collections, and the operations on them. The arrays of ids and of
-- sizes that a call is given are equally long, which the handlers see to.
pub mod Docs
pub mod Listing
pub mod Migration
pub mod Stored
pub mod Recovered
pub mod Update
pub mod Vectors
pub mod Erase
pub mod Loads
pub mod Store
pub mod Tests
use mochi_rkv.Prelude.{
  ℕ, suc, ◌+◌, ◌-◌, ◌%◌, Bool, true, false, not, ◌&&◌, ◌||◌, List, [], ◌∷◌, length, get_elem?,
  Option, none, some, ◌==◌, if◌then◌else◌,
}
use mochi_rkv.Common.{
  sub_size, Bytes, Status, success, key_exists, not_found, Mode, slice, key_not_found, size_mod,
}
use mochi_rkv.Watcher.{same_key}

-- struct Collection
pub record Collection : Type 0 where
  pub bytes : Bytes
  pub count : ℕ
  pub offsets : List ℕ
  pub sizes : List ℕ

abbrev pub new_collection : Collection
new_collection = record { bytes = []; count = 0; offsets = []; sizes = [] }

-- m_collections: the order of the list is the unspecified order of the unordered_map.
abbrev pub Collections : Type 0
Collections = List (Bytes × Collection)

pub record ArrayDatabase : Type 0 where
  pub collections : Collections
  pub has_migrated : Bool

unfoldable pub find : Bytes → Collections → Option Collection
find name [] = none
find name ((other, c) ∷ cs) =
    let rest = find name cs in if same_key name other then some c else rest

unfoldable pub drop_named : Bytes → Collections → Collections
drop_named name [] = []
drop_named name ((other, c) ∷ cs) =
    let rest = drop_named name cs in if same_key name other then rest else (other, c) ∷ rest

-- What a change of the collection that `find` returned comes to.
unfoldable pub replace : Bytes → Collection → Collections → Collections
replace name c [] = []
replace name c ((other, d) ∷ cs) =
    let rest = replace name c cs in
    if same_key name other then (other, c) ∷ cs else (other, d) ∷ rest

-- mode == (mode & (...)), built without Lua.
unfoldable pub supports_mode : Mode → Bool
supports_mode m =
    not (m.append || m.new_only || m.exist_only || m.no_prefix || m.ignore_keys)
    && not (m.keep_last_bit || m.suffix || m.lua_filter || m.other_bits)

unfoldable pub coll_create : Bytes → ArrayDatabase → Status × ArrayDatabase
unfolding find
coll_create name db = elim (find name db.collections) [
  | some c ↦ (key_exists, db)
  | none ↦ (success, record db { collections = (name, new_collection) ∷ db.collections })
]

unfoldable pub coll_drop : Bytes → ArrayDatabase → Status × ArrayDatabase
unfolding find drop_named
coll_drop name db = elim (find name db.collections) [
  | none ↦ (not_found, db)
  | some c ↦ (success, record db { collections = drop_named name db.collections })
]

unfoldable pub coll_exists : Bytes → ArrayDatabase → Status × Bool
unfolding find
coll_exists name db = elim (find name db.collections) [
  | none ↦ (success, false)
  | some c ↦ (success, true)
]

-- m_sizes.size() - 1, which is 2 ^ 64 - 1 for a collection without documents.
unfoldable pub coll_last_id : Bytes → ArrayDatabase → Status × Option ℕ
unfolding find
coll_last_id name db = elim (find name db.collections) [
  | none ↦ (not_found, none)
  | some c ↦ (success, some (sub_size (length c.sizes) 1))
]

unfoldable pub coll_size : Bytes → ArrayDatabase → Status × Option ℕ
unfolding find
coll_size name db = elim (find name db.collections) [
  | none ↦ (not_found, none)
  | some c ↦ (success, some c.count)
]

unfoldable pub destroy : ArrayDatabase → ArrayDatabase
destroy db = record db { collections = [] }

-- The document of an id: none for a read outside of the vectors, some none for no document.
unfoldable pub record_at : Collection → ℕ → Option (Option Bytes)
record_at c id = elim (get_elem? c.sizes id) [
  | none ↦ some none
  | some n ↦ if n == key_not_found then some none else elim (get_elem? c.offsets id) [
    | none ↦ none
    | some off ↦ elim (slice c.bytes off n) [ none ↦ none | some doc ↦ some (some doc) ]
  ]
]
