-- ===== src/ArrayBackend/Docs.antt =====
-- docSize, docStore, docUpdate, docLoad, docFetch and docErase of src/backends/array.cpp.
use mochi_rkv.Prelude.{
  ℕ, suc, ◌+◌, ◌-◌, Bool, true, false, not, ◌&&◌, List, [], ◌∷◌, ◌++◌, length, get_elem?, set, take,
  drop, replicate, Option, none, some, ltb, leb, ◌==◌, if◌then◌else◌,
}
use mochi_rkv.Common.{
  sub_size, Bytes, Status, success, not_found, invalid_id, Ret, returned, fault, Mode, slice,
  key_not_found, size_too_small,
}
use mochi_rkv.MapBackend.Read.{Slot, only}
use mochi_rkv.ArrayBackend.{Collection, ArrayDatabase, find, replace, record_at}

-- The size of each document.
unfoldable pub size_of : Collection → ℕ → ℕ
size_of c id = elim (get_elem? c.sizes id) [ none ↦ key_not_found | some n ↦ n ]

abbrev pub map_ids {ℓ} : {A : Type ℓ} → (ℕ → A) → List ℕ → List A
map_ids f [] = []
map_ids f (id ∷ ids) = f id ∷ map_ids f ids

unfoldable pub doc_size : Bytes → List ℕ → ArrayDatabase → Status × List ℕ
unfolding find size_of
doc_size name ids db = elim (find name db.collections) [
  | none ↦ (success, map_ids (λ id. key_not_found) ids)
  | some c ↦ (success, map_ids (size_of c) ids)
]

-- memcpy of the bytes to an offset of the vector, none where that is outside of it.
unfoldable pub copy_to : Bytes → ℕ → Bytes → Option Bytes
copy_to vec off bytes =
    if ltb (length vec) (off + length bytes)
    then none
    else some (take off vec ++ (bytes ++ drop (off + length bytes) vec))

-- m_data.resize(m_data.size() + n)
abbrev pub grown : ℕ → Collection → Collection
grown n c = record c { bytes = c.bytes ++ replicate n 0 }

abbrev stored_last : Bytes → ℕ → ℕ → Collection → Collection
stored_last bytes off n c = record {
  bytes = bytes;
  count = c.count + 1;
  offsets = c.offsets ++ off ∷ [];
  sizes = c.sizes ++ n ∷ [];
}

abbrev pub push_id : ℕ → Ret × List ℕ × Collection → Ret × List ℕ × Collection
push_id id (r, ids, c) = (r, id ∷ ids, c)

-- The loop of docStore: `pos` is the offset in the documents, `off` that in m_data.
unfoldable pub store_loop : Bytes → ℕ → ℕ → ℕ → List ℕ → Collection → Ret × List ℕ × Collection
unfolding copy_to
store_loop documents pos off id [] c = (returned success, [], c)
store_loop documents pos off id (n ∷ sizes) c =
    let rest = store_loop documents (pos + n) (off + n) (id + 1) sizes in
    elim (slice documents pos n) [
      | none ↦ (fault, [], c)
      | some doc ↦ elim (copy_to c.bytes off doc) [
        | none ↦ (fault, [], c)
        | some bytes ↦ push_id id (rest (stored_last bytes off n c))
      ]
    ]

abbrev in_place {ℓ} :
    {O : Type ℓ} → Bytes → ArrayDatabase → Ret × O × Collection → Ret × O × ArrayDatabase
in_place name db (r, o, c) = (r, o, record db { collections = replace name c db.collections })

-- The ids of the documents are those that the call writes.
unfoldable pub doc_store : Bytes → Bytes → List ℕ → ArrayDatabase → Ret × List ℕ × ArrayDatabase
unfolding find replace store_loop
doc_store name documents sizes db = elim (find name db.collections) [
  | none ↦ (returned not_found, [], db)
  | some c ↦
      in_place name db (
        store_loop documents 0 (length c.bytes) (length c.sizes) sizes (grown (length documents) c))
]

-- for(j = m_sizes.size(); j <= id; ++j) push_back
unfoldable pub fill_ids : ℕ → Collection → Collection
fill_ids id c =
    let missing = suc id - length c.sizes in
    record c {
      sizes = c.sizes ++ replicate missing key_not_found;
      offsets = c.offsets ++ replicate missing key_not_found;
    }

abbrev pub is_absent : ℕ → Collection → Bool
is_absent id c = elim (get_elem? c.sizes id) [ none ↦ false | some n ↦ n == key_not_found ]

abbrev pub updated : Bytes → ℕ → ℕ → ℕ → Collection → Collection
updated bytes off n id c = record {
  bytes = bytes;
  count = if is_absent id c then c.count + 1 else c.count;
  offsets = set c.offsets id off;
  sizes = set c.sizes id n;
}

-- The loop of docUpdate.
unfoldable pub update_loop : Bytes → ℕ → ℕ → List ℕ → List ℕ → Collection → Ret × Collection
unfolding copy_to fill_ids
update_loop documents pos off (id ∷ ids) (n ∷ sizes) c =
    let rest = update_loop documents (pos + n) (off + n) ids sizes in
    let c' = fill_ids id c in
    elim (slice documents pos n) [
      | none ↦ (fault, c')
      | some doc ↦ elim (copy_to c'.bytes off doc) [
        | none ↦ (fault, c')
        | some bytes ↦ rest (updated bytes off n id c')
      ]
    ]
update_loop documents pos off _ _ c = (returned success, c)

-- Whether some id is not below the number of documents.
unfoldable pub any_new : ℕ → List ℕ → Bool
any_new n [] = false
any_new n (id ∷ ids) = let rest = any_new n ids in if leb n id then true else rest

unfoldable pub doc_update :
    Bytes → Mode → List ℕ → Bytes → List ℕ → ArrayDatabase → Ret × ArrayDatabase
unfolding find replace update_loop any_new
doc_update name mode ids documents sizes db = elim (find name db.collections) [
  | none ↦ (returned not_found, db)
  | some c ↦
      if not mode.update_new && any_new (length c.sizes) ids
      then (returned invalid_id, db)
      else (let (r, c') =
            update_loop documents 0 (length c.bytes) ids sizes (grown (length documents) c) in
          (r, record db { collections = replace name c' db.collections }))
]

abbrev pub push_slot : Slot → Ret × List Slot → Ret × List Slot
push_slot o (r, os) = (r, o ∷ os)

-- for(; i < count; ++i) sizes[i] = YOKAN_SIZE_TOO_SMALL;
abbrev pub all_small : ℕ → List ℕ → List Slot
all_small at [] = []
all_small at (id ∷ ids) = only size_too_small at ∷ all_small at ids

abbrev pub whole : ℕ → Bytes → Slot
whole at doc = record { value = length doc; at = at; written = doc }

-- docLoad, packed.
unfoldable pub load_packed : Collection → ℕ → ℕ → List ℕ → Ret × List Slot
unfolding record_at
load_packed c at remaining [] = (returned success, [])
load_packed c at remaining (id ∷ ids) =
    let rest = λ (a r : ℕ). load_packed c a r ids in
    elim (record_at c id) [
      | none ↦ (fault, [])
      | some none ↦ push_slot (only key_not_found at) (rest at remaining)
      | some (some doc) ↦
          if ltb remaining (length doc)
          then (returned success, all_small at (id ∷ ids))
          else push_slot (whole at doc) (rest (at + length doc) (remaining - length doc))
    ]

-- docLoad, not packed: the sizes hold the room for each document.
unfoldable pub load_each : Collection → ℕ → List ℕ → List ℕ → Ret × List Slot
unfolding record_at
load_each c at (id ∷ ids) (room ∷ sizes) =
    let rest = λ (a : ℕ). load_each c a ids sizes in
    elim (record_at c id) [
      | none ↦ (fault, [])
      | some none ↦ push_slot (only key_not_found at) (rest (at + room))
      | some (some doc) ↦
          if ltb room (length doc)
          then push_slot (only size_too_small at) (rest at)
          else push_slot (whole at doc) (rest (at + room))
    ]
load_each c at _ _ = (returned success, [])

unfoldable pub doc_load : Bytes → Bool → List ℕ → ℕ → List ℕ → ArrayDatabase → Ret × List Slot
unfolding find load_packed load_each
doc_load name packed ids buf_size sizes db = elim (find name db.collections) [
  | none ↦ (returned not_found, [])
  | some c ↦ if packed then load_packed c 0 buf_size ids else load_each c 0 ids sizes
]

abbrev pub push_doc :
    ℕ × Option Bytes → Ret × List (ℕ × Option Bytes) → Ret × List (ℕ × Option Bytes)
push_doc o (r, os) = (r, o ∷ os)

-- docFetch: the calls of the callback, none for the null document of size KeyNotFound.
unfoldable pub fetch_loop : Collection → List ℕ → Ret × List (ℕ × Option Bytes)
unfolding record_at
fetch_loop c [] = (returned success, [])
fetch_loop c (id ∷ ids) =
    let rest = fetch_loop c ids in
    elim (record_at c id) [ none ↦ (fault, []) | some doc ↦ push_doc (id, doc) rest ]

unfoldable pub doc_fetch : Bytes → List ℕ → ArrayDatabase → Ret × List (ℕ × Option Bytes)
unfolding find fetch_loop
doc_fetch name ids db = elim (find name db.collections) [
  | none ↦ (returned not_found, [])
  | some c ↦ fetch_loop c ids
]

abbrev pub gone : ℕ → ℕ → Collection → Collection
gone n id c = record c {
  count = if n == key_not_found then c.count else sub_size c.count 1;
  sizes = set c.sizes id key_not_found;
  offsets = set c.offsets id key_not_found;
}

-- The loop of docErase.
unfoldable pub erase_loop : List ℕ → Collection → Collection
erase_loop [] c = c
erase_loop (id ∷ ids) c = elim (get_elem? c.sizes id) [
  | none ↦ erase_loop ids c
  | some n ↦ erase_loop ids (gone n id c)
]

unfoldable pub doc_erase : Bytes → List ℕ → ArrayDatabase → Status × ArrayDatabase
unfolding find replace erase_loop
doc_erase name ids db = elim (find name db.collections) [
  | none ↦ (not_found, db)
  | some c ↦ (success, record db { collections = replace name (erase_loop ids c) db.collections })
]
