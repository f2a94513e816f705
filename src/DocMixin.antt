-- ===== src/DocMixin.antt =====
-- include/yokan/doc-mixin.hpp: documents in a key/value map, over the database of
-- src/backends/map.cpp. The state, the cache of metadata and the operations on collections.
pub mod Keys
pub mod Docs
pub mod Order
pub mod Metadata
pub mod Requests
pub mod Listing
pub mod Tests
pub mod Stored
pub mod Updated
pub mod Created
use mochi_rkv.Prelude.{
  ℕ, suc, zero, ◌+◌, Bool, true, false, List, [], ◌∷◌, ◌++◌, take, drop, length, replicate, Option,
  none, some, ◌==◌, if◌then◌else◌,
}
use mochi_rkv.Common.{
  sub_size, Bytes, Status, success, invalid_arg, not_found, key_exists, corruption, Ret, returned,
  fault, Mode, mode_of, UserMem, key_not_found,
}
use mochi_rkv.Bytes.Codec.{to_le, of_le}
use mochi_rkv.Watcher.{same_key}
use mochi_rkv.LogBackend.Collection.{on_success}
use mochi_rkv.MapBackend.{MapDatabase, Wake}
use mochi_rkv.MapBackend.Read.{Slot, value_length, get, GetResult}
use mochi_rkv.MapBackend.Write.{put, erase}
use mochi_rkv.MapBackend.Listing.{is_nil}
use mochi_rkv.DocMixin.Keys.{keys_from_ids, key_size}

pub record CollectionMetadata : Type 0 where
  pub size : ℕ
  pub next_id : ℕ

-- m_cached_metadata
abbrev pub Cached : Type 0
Cached = List (Bytes × CollectionMetadata)

-- `kv` is the state of the class that the mixin extends. No other call runs while m_lock is held.
pub record DocDatabase : Type 0 where
  pub kv : MapDatabase
  pub cached : Cached

unfoldable pub find_cached : Bytes → Cached → Option CollectionMetadata
find_cached name [] = none
find_cached name ((other, m) ∷ l) =
    let rest = find_cached name l in if same_key name other then some m else rest

-- m_cached_metadata[name] = metadata
unfoldable pub set_cached : Bytes → CollectionMetadata → Cached → Cached
set_cached name m [] = (name, m) ∷ []
set_cached name m ((other, m') ∷ l) =
    let rest = set_cached name m l in
    if same_key name other then (other, m) ∷ l else (other, m') ∷ rest

unfoldable pub drop_cached : Bytes → Cached → Cached
drop_cached name [] = []
drop_cached name ((other, m) ∷ l) =
    let rest = drop_cached name l in if same_key name other then rest else (other, m) ∷ rest

-- sizeof(CollectionMetadata)
abbrev pub metadata_size : ℕ
metadata_size = 16

-- The bytes of the struct, and the struct of these bytes.
unfoldable pub metadata_bytes : CollectionMetadata → Bytes
metadata_bytes m = to_le 8 m.size ++ to_le 8 m.next_id

unfoldable pub metadata_of : Bytes → CollectionMetadata
metadata_of b = record { size = of_le (take 8 b); next_id = of_le (drop 8 b) }

-- A buffer that the mixin hands over. Its address matters to calls that wait only.
abbrev pub mem : ℕ → Bytes → UserMem
mem addr b = record { addr = addr; bytes = b }

abbrev pub first_size : List ℕ → Option ℕ
first_size [] = none
first_size (n ∷ ns) = some n

abbrev pub is_metadata_size : List ℕ → Option Bool
is_metadata_size [] = none
is_metadata_size (n ∷ ns) = some (n == metadata_size)

-- _collExists: the status, and *e where it is written.
unfoldable pub has_collection : Bytes → DocDatabase → Ret × Option Bool
has_collection name db =
    if is_nil name
    then (returned invalid_arg, none)
    else (let (r, sizes, s) = value_length (mode_of 0) (mem 0 name) (length name ∷ []) 1 [] db.kv in
        on_success r (r, is_metadata_size sizes) (r, none))

-- What the call of `get` has found for the metadata: its status, and the struct.
unfoldable pub read_metadata : Ret → List Slot → Ret × Option CollectionMetadata
read_metadata r [] = (r, none)
read_metadata r (slot ∷ slots) =
    on_success r
      (if slot.value == key_not_found
        then (returned not_found, none)
        else if slot.value == metadata_size
        then (r, some (metadata_of slot.written))
        else (returned corruption, none))
      (r, none)

abbrev pub cache_found : Bytes → Option CollectionMetadata → DocDatabase → DocDatabase
cache_found name none db = db
cache_found name (some m) db = record db { cached = set_cached name m db.cached }

-- _collGetMetadata, which is never called with from_disk.
unfoldable pub get_metadata : Bytes → DocDatabase → Ret × Option CollectionMetadata × DocDatabase
get_metadata name db =
    if is_nil name then (returned invalid_arg, none, db) else elim (find_cached name db.cached) [
      | some m ↦ (returned success, some m, db)
      | none ↦
          let g =
            get (mode_of 0) true (mem 0 name) (length name ∷ []) metadata_size (metadata_size ∷ [])
              [] (λ s. s) [] db.kv in
          let (r, m) = read_metadata g.ret g.slots in
          (r, m, cache_found name m (record db { kv = g.after }))
    ]

abbrev pub with_cached : Bytes → CollectionMetadata → DocDatabase → DocDatabase
with_cached name m db = record db { cached = set_cached name m db.cached }

-- _collPutMetadata
unfoldable pub put_metadata : Bytes → CollectionMetadata → Bool → DocDatabase → Ret × DocDatabase
put_metadata name m flush_to_disk db =
    if is_nil name
    then (returned invalid_arg, db)
    else if flush_to_disk
    then (let (r, s) =
          put (mode_of 0) (mem 0 name) (length name ∷ []) (mem 0 (metadata_bytes m))
            (metadata_size ∷ []) db.kv in
        let db' : DocDatabase = record db { kv = s } in
        on_success r (r, with_cached name m db') (r, db'))
    else (returned success, with_cached name m db)

-- What follows a successful _collGetMetadata.
unfoldable pub with_metadata {ℓ} :
    {O : Type ℓ}
    → Bytes
    → DocDatabase
    → O
    → (CollectionMetadata → DocDatabase → Ret × O × DocDatabase)
    → Ret × O × DocDatabase
with_metadata name db o next =
    let (r, m, db') = get_metadata name db in elim m [ none ↦ (r, o, db') | some m' ↦ next m' db' ]

unfoldable pub coll_create : Bytes → DocDatabase → Ret × DocDatabase
coll_create name db =
    let (r, e) = has_collection name db in
    elim e [
      | none ↦ (r, db)
      | some found ↦
          if found
          then (returned key_exists, db)
          else put_metadata name (record { size = 0; next_id = 0 }) true db
    ]

unfoldable pub ids_from : ℕ → ℕ → List ℕ
ids_from id zero = []
ids_from id (suc n) = id ∷ ids_from (id + 1) n

-- collDrop. `heap` is the address of the vector of keys. Whether the collection exists is asked and
-- not tested; without its metadata the call ends.
unfoldable pub coll_drop : Mode → Bytes → ℕ → List Wake → DocDatabase → Ret × Unit {0} × DocDatabase
coll_drop mode name heap ws db =
    let (r, e) = has_collection name db in
    on_success r
      (with_metadata name db tt λ m db'.
        let (r', u, s) =
          erase mode (mem heap (keys_from_ids name (ids_from 0 m.next_id) ++ name))
            (replicate m.next_id (key_size name) ++ length name ∷ []) ws db'.kv in
        (r', tt, record { kv = s; cached = drop_cached name db'.cached }))
      (r, tt, db)

abbrev pub coll_exists : Bytes → DocDatabase → Ret × Option Bool
coll_exists name db = has_collection name db

-- *id and *size are written where the status is OK.
unfoldable pub coll_last_id : Bytes → DocDatabase → Ret × Option ℕ × DocDatabase
coll_last_id name db =
    with_metadata name db none λ m db'. (returned success, some (sub_size m.next_id 1), db')

unfoldable pub coll_size : Bytes → DocDatabase → Ret × Option ℕ × DocDatabase
coll_size name db = with_metadata name db none λ m db'. (returned success, some m.size, db')
