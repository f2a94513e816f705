-- ===== src/Filters.antt =====
-- include/yokan/filters.hpp and src/server/util/filters.cpp: the filters that the listings apply.
pub mod Endian
pub mod Tests
pub mod Laws
use Endian.{ensure_big_endian}
use mochi_rkv.Prelude.{
  ℕ, ◌+◌, ◌-◌, min, Bool, true, false, not, ◌&&◌, List, [], ◌∷◌, ◌++◌, length, take, drop, Option,
  none, some, Ordering, ltb, ◌==◌, if◌then◌else◌,
}
use mochi_rkv.Common.{Bytes, Mode, size_too_small}
use mochi_rkv.Bytes.{memcmp}
use mochi_rkv.Bytes.Codec.{of_le}

-- The value that a copy returns, and the bytes that it writes at its destination.
abbrev pub Copied : Type 0
Copied = ℕ × Bytes

-- class KeyValueFilter. A copy is given the room at its destination, and the source.
pub record KeyValueFilter : Type 0 where
  pub requires_value : Bool
  pub check : Bytes → Bytes → Bool
  pub key_size_from : Bytes → ℕ
  pub val_size_from : Bytes → ℕ
  pub key_copy : ℕ → Bytes → Copied
  pub val_copy : ℕ → Bytes → Copied
  pub should_stop : Bytes → Bytes → Bool

-- class DocFilter. The first argument of each function is the collection's name.
pub record DocFilter : Type 0 where
  pub check : Bytes → ℕ → Bytes → Bool
  pub doc_size_from : Bytes → Bytes → ℕ
  pub doc_copy : Bytes → ℕ → Bytes → Copied
  pub should_stop : Bytes → Bytes → Bool

-- if(max < size) return YOKAN_SIZE_TOO_SMALL; memcpy(dst, src, size); return size;
unfoldable pub copy_whole : ℕ → Bytes → Copied
copy_whole max src = if ltb max (length src) then (size_too_small, []) else (length src, src)

abbrev pub is_zero : Ordering → Bool
is_zero r = elim r [ Ordering.eq ↦ true | _ ↦ false ]

abbrev pub is_positive : Ordering → Bool
is_positive r = elim r [ Ordering.gt ↦ true | _ ↦ false ]

-- KeyPrefixFilter::check
unfoldable pub prefix_check : Bytes → Bytes → Bool
unfolding memcmp
prefix_check prefix key =
    if ltb (length key) (length prefix) then false else is_zero (memcmp key prefix (length prefix))

-- KeyPrefixFilter::shouldStop
unfoldable pub prefix_should_stop : Bytes → Bytes → Bool
unfolding memcmp
prefix_should_stop prefix key = is_positive (memcmp key prefix (min (length key) (length prefix)))

-- KeyPrefixFilter::keyCopy
unfoldable pub prefix_key_copy : Mode → Bytes → ℕ → Bytes → Copied
unfolding copy_whole
prefix_key_copy mode prefix max key =
    if not mode.no_prefix then copy_whole max key else copy_whole max (drop (length prefix) key)

unfoldable pub key_prefix_filter : Mode → Bytes → KeyValueFilter
unfolding prefix_check prefix_should_stop prefix_key_copy copy_whole
key_prefix_filter mode prefix = record {
  requires_value = false;
  check = λ key val. prefix_check prefix key;
  key_size_from = λ key. if mode.no_prefix then length key - length prefix else length key;
  val_size_from = λ val. length val;
  key_copy = prefix_key_copy mode prefix;
  val_copy = copy_whole;
  should_stop = λ key val. prefix_should_stop prefix key;
}

-- KeySuffixFilter::check
unfoldable pub suffix_check : Bytes → Bytes → Bool
unfolding memcmp
suffix_check suffix key =
    if ltb (length key) (length suffix)
    then false
    else is_zero (memcmp (drop (length key - length suffix) key) suffix (length suffix))

-- KeySuffixFilter::keyCopy
unfoldable pub suffix_key_copy : Mode → Bytes → ℕ → Bytes → Copied
unfolding copy_whole
suffix_key_copy mode suffix max key =
    if not mode.no_prefix
    then copy_whole max key
    else copy_whole max (take (length key - length suffix) key)

unfoldable pub key_suffix_filter : Mode → Bytes → KeyValueFilter
unfolding suffix_check suffix_key_copy copy_whole
key_suffix_filter mode suffix = record {
  requires_value = false;
  check = λ key val. suffix_check suffix key;
  key_size_from = λ key. if mode.no_prefix then length key - length suffix else length key;
  val_size_from = λ val. length val;
  key_copy = suffix_key_copy mode suffix;
  val_copy = copy_whole;
  should_stop = λ key val. false;
}

unfoldable pub default_doc_filter : DocFilter
unfolding copy_whole
default_doc_filter = record {
  check = λ collection id val. true;
  doc_size_from = λ collection val. length val;
  doc_copy = λ collection. copy_whole;
  should_stop = λ collection val. false;
}

-- The bytes of YOKAN's document keys behind the prefix: sizeof(yk_id_t).
abbrev pub sizeof_id : ℕ
sizeof_id = 8

-- memcpy of the id behind the prefix of `off` bytes, then _ensureBigEndian.
unfoldable pub id_at : ℕ → Bytes → ℕ
unfolding ensure_big_endian of_le
id_at off key = ensure_big_endian (of_le (take sizeof_id (drop off key)))

-- CollectionFilterWrapper::check
unfoldable pub collection_check : Bytes → DocFilter → Bytes → Bytes → Bool
unfolding prefix_check id_at
collection_check name f key val =
    if not (prefix_check (name ++ 0 ∷ []) key)
    then false
    else if not (length key == length name + 1 + sizeof_id)
    then false
    else f.check name (id_at (length name + 1) key) val

-- CollectionFilterWrapper over a document filter, which FilterFactory never leaves out.
unfoldable pub collection_filter : Mode → Bytes → DocFilter → KeyValueFilter
unfolding collection_check prefix_should_stop prefix_key_copy
collection_filter no_prefix_mode name f = record {
  requires_value = true;
  check = collection_check name f;
  key_size_from = λ key. length key - length (name ++ 0 ∷ []);
  val_size_from = f.doc_size_from name;
  key_copy = prefix_key_copy no_prefix_mode (name ++ 0 ∷ []);
  val_copy = f.doc_copy name;
  should_stop =
      λ key val. if prefix_should_stop (name ++ 0 ∷ []) key then true else f.should_stop name val;
}
