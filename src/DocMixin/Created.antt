-- ===== src/DocMixin/Created.antt =====
-- What collExists answers, and what collCreate and docLoad do.
use mathlib.Core.List.{append-nil}
use mochi_rkv.Prelude.{
  ◌<◌, ◌≡◌, ◌≢◌, refl, ◌∙◌, true, false, Bool, [], ◌∷◌, length, Option, some, ◌==◌,
}
use mochi_rkv.Common.{Bytes, size_mod, success, returned, mode_of, key_exists}
use mochi_rkv.Bytes.{IsStrictTotal}
use mochi_rkv.Bytes.Codec.{to_le}
use mochi_rkv.MapBackend.Listing.{is_nil}
use mochi_rkv.MapBackend.Lookups.{length-answers}
use mochi_rkv.MapBackend.Read.{value_length, value_size}
use mochi_rkv.MapBackend.Rounds.{view, stepped, put_key_view, put_key_migrated}
use mochi_rkv.DocMixin.{
  CollectionMetadata, DocDatabase, find_cached, metadata_bytes, with_cached, has_collection,
  coll_create, mem, metadata_size,
}
use mochi_rkv.DocMixin.Metadata.{put_metadata_lem, find_cached-set_cached}
use mochi_rkv.DocMixin.Requests.{if_same_ne, if_same_refl}

-- Whether a value of the map can be the metadata of a collection.
abbrev pub is_metadata : Option Bytes → Bool
is_metadata v = value_size v == metadata_size

abbrev pub new_metadata : CollectionMetadata
new_metadata = record { size = 0; next_id = 0 }

-- The database with the collection.
abbrev pub with_collection : Bytes → DocDatabase → DocDatabase
with_collection name db =
    with_cached name new_metadata
      (record db { kv = stepped (mode_of 0) name (metadata_bytes new_metadata) db.kv })

module _ (name : Bytes) (named : is_nil name ≡ false) (short : length name < size_mod)
    (db : DocDatabase) (here : db.kv.has_migrated ≡ false) where
  length_of_name :
      value_length (mode_of 0) (mem 0 name) (length name ∷ []) 1 [] db.kv
      ≡ (returned success, value_size (view db.kv name) ∷ [], db.kv)
  unfolding mode_of
  length_of_name =
      let e =
        length-answers (mode_of 0) (name ∷ []) [] db.kv 0 refl here (rw (append-nil name) short) in
      rw (append-nil name) at e

  -- collExists on a name that is not empty, on a database that has not migrated: whether the map
  -- holds a value of the size of the metadata under the name.
  pub has_collection_lem :
      has_collection name db ≡ (returned success, some (is_metadata (view db.kv name)))
  unfolding has_collection
  has_collection_lem = rw (named, length_of_name) refl

module _ (name : Bytes) (named : is_nil name ≡ false) (short : length name < size_mod)
    (db : DocDatabase) (here : db.kv.has_migrated ≡ false) (o : IsStrictTotal db.kv.cmp) where
  has : has_collection name db ≡ (returned success, some (is_metadata (view db.kv name)))
  has = has_collection_lem name named short db here

  coll_create_old :
      is_metadata (view db.kv name) ≡ true → coll_create name db ≡ (returned key_exists, db)
  unfolding coll_create
  coll_create_old e = rw (has, coll_create) (rw e refl)

  coll_create_new :
      is_metadata (view db.kv name) ≡ false
      → coll_create name db ≡ (returned success, with_collection name db)
  unfolding coll_create
  coll_create_new e =
      rw (has, coll_create) (rw (e, put_metadata_lem name named short new_metadata db here o) refl)

  view-with_collection : view (with_collection name db).kv name ≡ some (metadata_bytes new_metadata)
  unfolding mode_of
  view-with_collection =
      put_key_view (mode_of 0) name (metadata_bytes new_metadata) db.kv o name
      ∙ if_same_refl db.kv.cmp o name _ _

  view-with_collection_other :
      (k : Bytes) → name ≢ k → view (with_collection name db).kv k ≡ view db.kv k
  view-with_collection_other k ne =
      put_key_view (mode_of 0) name (metadata_bytes new_metadata) db.kv o k
      ∙ if_same_ne db.kv.cmp o name k _ _ ne

  has_collection-with_collection :
      has_collection name (with_collection name db) ≡ (returned success, some true)
  unfolding metadata_bytes to_le
  has_collection-with_collection =
      has_collection_lem name named short (with_collection name db)
        (put_key_migrated (mode_of 0) name (metadata_bytes new_metadata) db.kv ∙ here)
      ∙ rw view-with_collection refl

  -- collCreate, with a name that is not empty, on a database that has not migrated: KeyExists where
  -- the map holds a value of the size of the metadata under the name; otherwise it succeeds, then
  -- the collection exists, is empty and starts at the id 0, and the map is as it was elsewhere.
  pub coll_create_answers :
      (is_metadata (view db.kv name) ≡ true → coll_create name db ≡ (returned key_exists, db))
      × (is_metadata (view db.kv name) ≡ false
          → coll_create name db ≡ (returned success, with_collection name db))
      × (has_collection name (with_collection name db) ≡ (returned success, some true))
      × (find_cached name (with_collection name db).cached ≡ some new_metadata)
      × ((k : Bytes) → name ≢ k → view (with_collection name db).kv k ≡ view db.kv k)
  coll_create_answers = (
    coll_create_old,
    coll_create_new,
    has_collection-with_collection,
    find_cached-set_cached name new_metadata db.cached,
    view-with_collection_other,
  )
