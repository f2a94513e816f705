-- ===== src/DocMixin/Keys.antt =====
-- The keys of documents in include/yokan/doc-mixin.hpp: the name of the collection with its zero
-- byte, and the id, highest byte first.
use mochi_rkv.Prelude.{ℕ, ◌+◌, List, [], ◌∷◌, ◌++◌, length, Option, none, some}
use mochi_rkv.Common.{Bytes, slice}
use mochi_rkv.Bytes.Codec.{to_le, of_le}
use mochi_rkv.Filters.Endian.{ensure_big_endian}

-- name_len+1+sizeof(yk_id_t)
abbrev pub key_size : Bytes → ℕ
key_size name = length name + 1 + 8

-- _keyFromId
unfoldable pub key_from_id : Bytes → ℕ → Bytes
key_from_id name id = name ++ 0 ∷ to_le 8 (ensure_big_endian id)

-- _keysFromIds
unfoldable pub keys_from_ids : Bytes → List ℕ → Bytes
keys_from_ids name [] = []
keys_from_ids name (id ∷ ids) =
    (name ++ 0 ∷ to_le 8 (ensure_big_endian id)) ++ keys_from_ids name ids

-- _idFromKey, on the bytes of a key; none for a read behind them.
unfoldable pub id_from_key : ℕ → Bytes → Option ℕ
id_from_key coll_name_len key = elim (slice key (coll_name_len + 1) 8) [
  | none ↦ none
  | some be_id ↦ some (ensure_big_endian (of_le be_id))
]
