-- ===== src/DocMixin/Docs.antt =====
-- docSize, docStore, docUpdate, docLoad, docFetch and docErase of include/yokan/doc-mixin.hpp.
use mochi_rkv.Prelude.{
  ℕ, suc, zero, Bool, true, false, List, [], ◌∷◌, map, length, replicate, Option, none, some, ltb,
  leb, if◌then◌else◌,
}
use mochi_rkv.Common.{
  sub_size, Bytes, invalid_arg, invalid_id, not_found, Ret, returned, Mode, UserMem, add_size,
}
use mochi_rkv.LogBackend.Collection.{on_success}
use mochi_rkv.MapBackend.{MapDatabase, Wake}
use mochi_rkv.MapBackend.Read.{Slot, value_length, exists, get, fetch}
use mochi_rkv.MapBackend.Write.{put, erase}
use mochi_rkv.MapBackend.Listing.{is_nil}
use mochi_rkv.DocMixin.{
  CollectionMetadata, DocDatabase, mem, has_collection, get_metadata, put_metadata, with_metadata,
}
use mochi_rkv.DocMixin.Keys.{keys_from_ids, key_size, id_from_key}

abbrev pub key_sizes : Bytes → List ℕ → List ℕ
key_sizes name ids = replicate (length ids) (key_size name)

abbrev pub with_kv : MapDatabase → DocDatabase → DocDatabase
with_kv s db = record db { kv = s }

-- `heap` is the address of the vector of keys in all of these, `ws` the wakes of the call that it
-- makes. docSize takes no lock.
unfoldable pub doc_size :
    Bytes → Mode → ℕ → List ℕ → ℕ → List Wake → DocDatabase → Ret × List ℕ × DocDatabase
doc_size name mode heap ids nsizes ws db =
    if is_nil name
    then (returned invalid_arg, [], db)
    else (let (r, sizes, s) =
          value_length mode (mem heap (keys_from_ids name ids)) (key_sizes name ids) nsizes ws
            db.kv in
        (r, sizes, with_kv s db))

-- ids[i] = metadata.next_id + i
unfoldable pub new_ids : ℕ → ℕ → List ℕ
new_ids id zero = []
new_ids id (suc n) = id ∷ new_ids (add_size id 1) n

-- The end of docStore, under the second lock. Where the metadata cannot be read again, those of the
-- first lock are used.
unfoldable pub count_stored :
    Bytes → ℕ → CollectionMetadata → List ℕ → DocDatabase → Ret × List ℕ × DocDatabase
count_stored name count old ids db =
    let (r, m, db1) = get_metadata name db in
    let metadata : CollectionMetadata = elim m [ none ↦ old | some m' ↦ m' ] in
    let (r', db2) =
      put_metadata name (record metadata { size = add_size metadata.size count }) true db1 in
    (r', ids, db2)

-- docStore, with the ids that it writes. `count` is ids.size. `window` is what other threads do to
-- the database between the two locks, before and after the `put`.
unfoldable pub doc_store :
    Bytes
    → Mode
    → ℕ
    → UserMem
    → List ℕ
    → ℕ
    → (DocDatabase → DocDatabase) × (DocDatabase → DocDatabase)
    → DocDatabase
    → Ret × List ℕ × DocDatabase
doc_store name mode heap documents sizes count (window, window') db =
    with_metadata name db [] λ m db1.
      let ids = new_ids m.next_id count in
      let metadata = record m { next_id = add_size m.next_id count } in
      let (r2, db2) = put_metadata name metadata false db1 in
      on_success r2
        (let db3 = window db2 in
          let (r3, s) =
            put mode (mem heap (keys_from_ids name ids)) (key_sizes name ids) documents sizes
              db3.kv in
          let db4 = with_kv s db3 in
          on_success r3 (count_stored name count metadata ids (window' db4)) (r3, ids, db4))
        (r2, ids, db2)

unfoldable pub count_flags : Bool → List Bool → ℕ
count_flags b [] = 0
count_flags b (f ∷ fs) =
    let rest = count_flags b fs in
    elim b [ true ↦ if f then suc rest else rest | false ↦ if f then rest else suc rest ]

unfoldable pub max_id : ℕ → List ℕ → ℕ
max_id m [] = m
max_id m (id ∷ ids) = max_id (if ltb m id then id else m) ids

unfoldable pub any_from : ℕ → List ℕ → Bool
any_from next [] = false
any_from next (id ∷ ids) = let rest = any_from next ids in if leb next id then true else rest

-- docUpdate with YOKAN_MODE_UPDATE_NEW, from the metadata on.
unfoldable pub update_new :
    Bytes
    → Mode
    → ℕ
    → List ℕ
    → UserMem
    → List ℕ
    → List Wake
    → CollectionMetadata
    → DocDatabase
    → Ret × Unit {0} × DocDatabase
update_new name mode heap ids documents sizes ws m db =
    let keys = mem heap (keys_from_ids name ids) in
    let ksizes = key_sizes name ids in
    let (r1, flags, s1) = exists mode keys ksizes (length sizes) ws db.kv in
    on_success r1
      (let (r2, s2) = put mode keys ksizes documents sizes s1 in
        on_success r2
          (let metadata : CollectionMetadata = record {
            size = add_size m.size (count_flags false flags);
            next_id = add_size (max_id 0 ids) 1;
          } in
            let (r3, db3) = put_metadata name metadata true (with_kv s2 db) in (r3, tt, db3))
          (r2, tt, with_kv s2 db))
      (r1, tt, with_kv s1 db)

unfoldable pub doc_update :
    Bytes
    → Mode
    → ℕ
    → List ℕ
    → UserMem
    → List ℕ
    → List Wake
    → DocDatabase
    → Ret × Unit {0} × DocDatabase
doc_update name mode heap ids documents sizes ws db =
    if is_nil name
    then (returned invalid_arg, tt, db)
    else with_metadata name db tt λ m db1.
      if mode.update_new
      then update_new name mode heap ids documents sizes ws m db1
      else if any_from m.next_id ids
      then (returned invalid_id, tt, db1)
      else (let (r, s) =
            put mode (mem heap (keys_from_ids name ids)) (key_sizes name ids) documents sizes
              db1.kv in
          (r, tt, with_kv s db1))

-- docLoad: the slots that it writes.
unfoldable pub doc_load :
    Bytes
    → Mode
    → Bool
    → ℕ
    → List ℕ
    → ℕ
    → List ℕ
    → List Wake
    → (MapDatabase → MapDatabase)
    → List Wake
    → DocDatabase
    → Ret × List Slot × DocDatabase
doc_load name mode packed heap ids docs_size sizes ws window later db =
    let (r, e) = has_collection name db in
    elim e [
      | none ↦ (r, [], db)
      | some found ↦
          if found
          then (let g =
                get mode packed (mem heap (keys_from_ids name ids)) (key_sizes name ids) docs_size
                  sizes ws window later db.kv in
              (g.ret, g.slots, with_kv g.after db))
          else (returned not_found, [], db)
    ]

-- The call of the callback for a key and its value.
abbrev pub doc_call : ℕ → Bytes × Option Bytes → Option ℕ × Option Bytes
doc_call name_len (key, val) = (id_from_key name_len key, val)

-- docFetch: the calls of the callback. Whether the collection exists is asked and not tested.
unfoldable pub doc_fetch :
    Bytes
    → Mode
    → ℕ
    → List ℕ
    → List Wake
    → DocDatabase
    → Ret × List (Option ℕ × Option Bytes) × DocDatabase
doc_fetch name mode heap ids ws db =
    let (r, e) = has_collection name db in
    on_success r
      (let (r', calls, s) =
          fetch mode (mem heap (keys_from_ids name ids)) (key_sizes name ids) ws db.kv in
        (r', map (doc_call (length name)) calls, with_kv s db))
      (r, [], db)

-- The end of docErase, behind the count of the documents that are there.
unfoldable pub erase_counted :
    Bytes → Mode → ℕ → List ℕ → ℕ → List Wake → DocDatabase → Ret × Unit {0} × DocDatabase
erase_counted name mode heap ids num_keys_to_erase ws db = with_metadata name db tt λ m db1.
    let (r, u, s) = erase mode (mem heap (keys_from_ids name ids)) (key_sizes name ids) ws db1.kv in
    on_success r
      (let metadata = record m { size = sub_size m.size num_keys_to_erase } in
        let (r', db2) = put_metadata name metadata true (with_kv s db1) in (r', tt, db2))
      (r, tt, with_kv s db1)

-- docErase; `later` are the wakes of `erase`.
unfoldable pub doc_erase :
    Bytes → Mode → ℕ → List ℕ → List Wake → List Wake → DocDatabase → Ret × Unit {0} × DocDatabase
doc_erase name mode heap ids ws later db =
    if is_nil name
    then (returned invalid_arg, tt, db)
    else (let (r, flags, s) =
          exists mode (mem heap (keys_from_ids name ids)) (key_sizes name ids) (length ids) ws
            db.kv in
        on_success r
          (erase_counted name mode heap ids (count_flags true flags) later (with_kv s db))
          (r, tt, with_kv s db))
