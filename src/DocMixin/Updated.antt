-- ===== src/DocMixin/Updated.antt =====
-- What docUpdate with UPDATE_NEW does to the documents and the metadata that clients see.
use mochi_rkv.Prelude.{ℕ, ◌<◌, false, List, [], ◌∷◌, Option, some, if◌then◌else◌, ◌==◌}
use mochi_rkv.Common.{Bytes, size_mod, Mode, mode_of, add_size}
use mochi_rkv.MapBackend.{Wake}
use mochi_rkv.MapBackend.Read.{is_some}
use mochi_rkv.MapBackend.Lookups.{answers}
use mochi_rkv.MapBackend.Rounds.{stepped, put_rounds, keys_of}
use mochi_rkv.DocMixin.{CollectionMetadata, DocDatabase, metadata_bytes, with_cached}
use mochi_rkv.DocMixin.Docs.{with_kv, count_flags, max_id}
use mochi_rkv.DocMixin.Keys.{key_from_id}

-- The documents that are handed over, with their ids, in the order of the request.
abbrev pub Updates : Type 0
Updates = List (ℕ × Bytes)

abbrev pub ids_of : Updates → List ℕ
ids_of [] = []
ids_of ((id, d) ∷ us) = id ∷ ids_of us

abbrev pub docs_of : Updates → List Bytes
docs_of [] = []
docs_of ((id, d) ∷ us) = d ∷ docs_of us

abbrev pub key_pairs : Bytes → Updates → List (Bytes × Bytes)
key_pairs name [] = []
key_pairs name ((id, d) ∷ us) = (key_from_id name id, d) ∷ key_pairs name us

-- The document of the id j once documents are updated in turn.
abbrev pub updated_at : Updates → ℕ → Option Bytes → Option Bytes
updated_at [] j old = old
updated_at ((id, d) ∷ us) j old = updated_at us j (if id == j then some d else old)

abbrev pub AreIds : Updates → Type 0
AreIds [] = Unit
AreIds ((id, d) ∷ us) = (id < size_mod) × AreIds us

module _ (name : Bytes) (mode : Mode) (heap at : ℕ) (us : Updates) (ws : List Wake)
    (db : DocDatabase) (m : CollectionMetadata) where
  abbrev keys : List Bytes
  keys = keys_of (key_pairs name us)

  -- The metadata that docUpdate writes: an id that the map does not hold counts each time it stands
  -- in the request, and next_id follows the largest of the ids.
  abbrev pub updated_metadata : CollectionMetadata
  updated_metadata = record {
    size = add_size m.size (count_flags false (answers is_some keys db.kv));
    next_id = add_size (max_id 0 (ids_of us)) 1;
  }

  abbrev with_docs : DocDatabase
  with_docs = with_kv (put_rounds mode (key_pairs name us) db.kv) db

  abbrev pub after_update : DocDatabase
  after_update = with_cached name updated_metadata (record with_docs {
    kv = stepped (mode_of 0) name (metadata_bytes updated_metadata) with_docs.kv;
  })
