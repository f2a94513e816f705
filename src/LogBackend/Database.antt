-- ===== src/LogBackend/Database.antt =====
-- The operations of LogDatabase on its collections and documents, but for the listings.
use mochi_rkv.Prelude.{
  ℕ, ◌+◌, ◌*◌, ◌-◌, Bool, true, false, not, ◌&&◌, List, [], ◌∷◌, length, Option, none, some, ltb,
  if◌then◌else◌,
}
use mochi_rkv.Common.{
  Bytes, Status, success, size_error, invalid_id, not_found, key_exists, migrated, Ret, returned,
  fault, Mode, key_not_found, size_too_small,
}
use mochi_rkv.Watcher.{same_key}
use mochi_rkv.MapBackend.Read.{Slot, only}
use mochi_rkv.ArrayBackend.Docs.{push_slot, all_small, whole}
use mochi_rkv.LogBackend.Collection.{
  Collection, append, erase, read_doc, document, refused, crashed, fetch_doc, called, uncalled,
  broken, entry_size_of, last_id,
}
use mochi_rkv.LogBackend.Update.{update}

abbrev pub Collections : Type 0
Collections = List (Bytes × Collection)

-- `left` are the files in m_path of collections that were dropped.
pub record LogDatabase : Type 0 where
  pub collections : Collections
  pub left : Collections
  pub chunk_size : ℕ
  pub has_migrated : Bool

unfoldable pub find : Bytes → Collections → Option Collection
find name [] = none
find name ((other, c) ∷ cs) =
    let rest = find name cs in if same_key name other then some c else rest

unfoldable pub drop_named : Bytes → Collections → Collections
drop_named name [] = []
drop_named name ((other, c) ∷ cs) =
    let rest = drop_named name cs in if same_key name other then rest else (other, c) ∷ rest

unfoldable pub replace : Bytes → Collection → Collections → Collections
replace name c [] = []
replace name c ((other, d) ∷ cs) =
    let rest = replace name c cs in
    if same_key name other then (other, c) ∷ cs else (other, d) ∷ rest

-- The size with which the metadata file is mapped.
abbrev pub first_meta_size : ℕ
first_meta_size = 8 * 8 * 4096

-- Collection::Collection: on the files of the name, or on new ones.
unfoldable pub open_collection : ℕ → Option Collection → Collection
open_collection chunk_size none = record {
  header = record { coll_size = 0; next_id = 0; last_chunk_id = 0 };
  entries = [];
  meta_size = first_meta_size;
  chunks = [];
  chunk_size = chunk_size;
}
open_collection chunk_size (some c) = record c {
  meta_size = first_meta_size;
  chunk_size = chunk_size;
}

unfoldable pub coll_create : Bytes → LogDatabase → Status × LogDatabase
unfolding find open_collection drop_named
coll_create name db = elim (find name db.collections) [
  | some c ↦ (key_exists, db)
  | none ↦ (
    success,
    record db {
      collections = (name, open_collection db.chunk_size (find name db.left)) ∷ db.collections;
      left = drop_named name db.left;
    },
  )
]

-- What collDrop removes is m_path/name; the files are m_path/name.meta and m_path/name.0 and so on.
unfoldable pub coll_drop : Bytes → LogDatabase → Status × LogDatabase
unfolding find drop_named
coll_drop name db = elim (find name db.collections) [
  | none ↦ (not_found, db)
  | some c ↦ (
    success,
    record db { collections = drop_named name db.collections; left = (name, c) ∷ db.left },
  )
]

unfoldable pub coll_exists : Bytes → LogDatabase → Status × Bool
unfolding find
coll_exists name db = elim (find name db.collections) [
  | none ↦ (success, false)
  | some c ↦ (success, true)
]

unfoldable pub coll_last_id : Bytes → LogDatabase → Status × Option ℕ
unfolding find
coll_last_id name db = elim (find name db.collections) [
  | none ↦ (not_found, none)
  | some c ↦ (success, some (last_id c))
]

unfoldable pub coll_size : Bytes → LogDatabase → Status × Option ℕ
unfolding find
coll_size name db = elim (find name db.collections) [
  | none ↦ (not_found, none)
  | some c ↦ (success, some c.header.coll_size)
]

abbrev pub push_size : ℕ → Status × List ℕ → Status × List ℕ
push_size n (st, ns) = (st, n ∷ ns)

-- The loop of docSize, which ends at a status other than OK and NotFound.
unfoldable pub sizes_loop : Collection → List ℕ → Status × List ℕ
unfolding entry_size_of
sizes_loop c [] = (success, [])
sizes_loop c (id ∷ ids) =
    let rest = sizes_loop c ids in
    let (st, n) = entry_size_of id c in
    elim st [
      | success ↦ push_size n rest
      | not_found ↦ push_size key_not_found rest
      | st' ↦ (st', [])
    ]

abbrev pub all_missing : List ℕ → List ℕ
all_missing [] = []
all_missing (id ∷ ids) = key_not_found ∷ all_missing ids

unfoldable pub doc_size : Bytes → List ℕ → LogDatabase → Status × List ℕ
unfolding find sizes_loop
doc_size name ids db = elim (find name db.collections) [
  | none ↦ (success, all_missing ids)
  | some c ↦ sizes_loop c ids
]

abbrev pub stored : Bytes → LogDatabase → Collection → LogDatabase
stored name db c = record db { collections = replace name c db.collections }

unfoldable pub doc_store : Bytes → Bytes → List ℕ → LogDatabase → Ret × List ℕ × LogDatabase
unfolding find replace append
doc_store name documents sizes db = elim (find name db.collections) [
  | none ↦ (returned not_found, [], db)
  | some c ↦ let (r, ids, c') = append documents sizes c in (r, ids, stored name db c')
]

unfoldable pub any_above : ℕ → List ℕ → Bool
any_above last [] = false
any_above last (id ∷ ids) = let rest = any_above last ids in if ltb last id then true else rest

unfoldable pub doc_update : Bytes → Mode → List ℕ → Bytes → List ℕ → LogDatabase → Ret × LogDatabase
unfolding find replace any_above update
doc_update name mode ids documents sizes db = elim (find name db.collections) [
  | none ↦ (returned not_found, db)
  | some c ↦
      if not mode.update_new && any_above (last_id c) ids
      then (returned invalid_id, db)
      else (let (r, c') = update ids documents sizes c in (r, stored name db c'))
]

-- docLoad, packed.
unfoldable pub load_packed : Collection → ℕ → ℕ → List ℕ → Ret × List Slot
unfolding read_doc
load_packed c at remaining [] = (returned success, [])
load_packed c at remaining (id ∷ ids) =
    let rest = λ (a r : ℕ). load_packed c a r ids in
    elim (read_doc id remaining c) [
      | document doc ↦ push_slot (whole at doc) (rest (at + length doc) (remaining - length doc))
      | refused st ↦ elim st [
        | size_error ↦ (returned success, all_small at (id ∷ ids))
        | not_found ↦ push_slot (only key_not_found at) (rest at remaining)
        | invalid_id ↦ push_slot (only key_not_found at) (rest at remaining)
        | st' ↦ (returned st', [])
      ]
      | crashed ↦ (fault, [])
    ]

-- docLoad, not packed: the sizes hold the room for each document.
unfoldable pub load_each : Collection → ℕ → List ℕ → List ℕ → Ret × List Slot
unfolding read_doc
load_each c at (id ∷ ids) (room ∷ sizes) =
    let rest = load_each c (at + room) ids sizes in
    elim (read_doc id room c) [
      | document doc ↦ push_slot (whole at doc) rest
      | refused st ↦ elim st [
        | size_error ↦ push_slot (only size_too_small at) rest
        | not_found ↦ push_slot (only key_not_found at) rest
        | invalid_id ↦ push_slot (only key_not_found at) rest
        | st' ↦ (returned st', [])
      ]
      | crashed ↦ (fault, [])
    ]
load_each c at _ _ = (returned success, [])

unfoldable pub doc_load : Bytes → Bool → List ℕ → ℕ → List ℕ → LogDatabase → Ret × List Slot
unfolding find load_packed load_each
doc_load name packed ids buf_size sizes db = elim (find name db.collections) [
  | none ↦ (returned not_found, [])
  | some c ↦ if packed then load_packed c 0 buf_size ids else load_each c 0 ids sizes
]

abbrev pub push_doc :
    ℕ × Option Bytes → Ret × List (ℕ × Option Bytes) → Ret × List (ℕ × Option Bytes)
push_doc o (r, os) = (r, o ∷ os)

-- docFetch: the calls of the callback. What `fetch` returns is dropped.
unfoldable pub fetch_loop : Collection → List ℕ → Ret × List (ℕ × Option Bytes)
unfolding fetch_doc
fetch_loop c [] = (returned success, [])
fetch_loop c (id ∷ ids) =
    let rest = fetch_loop c ids in
    elim (fetch_doc id c) [
      | called doc ↦ push_doc (id, doc) rest
      | uncalled ↦ rest
      | broken ↦ (fault, [])
    ]

unfoldable pub doc_fetch : Bytes → List ℕ → LogDatabase → Ret × List (ℕ × Option Bytes)
unfolding find fetch_loop
doc_fetch name ids db = elim (find name db.collections) [
  | none ↦ (returned not_found, [])
  | some c ↦ fetch_loop c ids
]

-- The loop of docErase, which drops the statuses.
unfoldable pub erase_loop : List ℕ → Collection → Collection
unfolding erase
erase_loop [] c = c
erase_loop (id ∷ ids) c = erase_loop ids (erase id c).1

unfoldable pub doc_erase : Bytes → List ℕ → LogDatabase → Status × LogDatabase
unfolding find replace erase_loop
doc_erase name ids db = elim (find name db.collections) [
  | none ↦ (not_found, db)
  | some c ↦ (success, stored name db (erase_loop ids c))
]

-- destroy removes the directory of all files.
unfoldable pub destroy : LogDatabase → LogDatabase
destroy db = record db { collections = []; left = [] }

-- startMigration: the files of the handle are those of the directory. The flag is `cancelled`.
unfoldable pub start_migration : LogDatabase → Status × Option Bool
start_migration db = if db.has_migrated then (migrated, none) else (success, some false)

-- ~LogMigrationHandle
unfoldable pub close_migration : Bool → LogDatabase → LogDatabase
unfolding destroy
close_migration cancelled db = if cancelled then db else record (destroy db) { has_migrated = true }

abbrev pub reopened : ℕ → Collections → Collections
reopened chunk_size [] = []
reopened chunk_size ((name, c) ∷ cs) =
    (name, open_collection chunk_size (some c)) ∷ reopened chunk_size cs

-- LogDatabase::LogDatabase, on the files of a directory: every .meta file is a collection. recover
-- opens the directory that a migration has brought over in the same way.
unfoldable pub open_directory : ℕ → Collections → LogDatabase
unfolding open_collection
open_directory chunk_size files = record {
  collections = reopened chunk_size files;
  left = [];
  chunk_size = chunk_size;
  has_migrated = false;
}
