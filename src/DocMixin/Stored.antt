-- ===== src/DocMixin/Stored.antt =====
-- What docStore does to the documents and the metadata that clients see.
use mochi_rkv.Prelude.{ℕ, ◌+◌, ◌<◌, ◌≡◌, refl, ◌∙◌, false, List, [], length, some}
use mochi_rkv.Common.{Bytes, size_mod, success, returned, Mode, mode_of, add_size}
use mochi_rkv.Bytes.{IsStrictTotal}
use mochi_rkv.MapBackend.Write.{put}
use mochi_rkv.MapBackend.Listing.{is_nil}
use mochi_rkv.MapBackend.Lookups.{keys_at}
use mochi_rkv.MapBackend.Request.{concat, sizes_of}
use mochi_rkv.MapBackend.Rounds.{view, stepped, put_rounds, keys_of, put_key_view, view-put_rounds}
use mochi_rkv.MapBackend.Plain.{IsPlain, put_plain, cmp-put_rounds, has_migrated-put_rounds}
use mochi_rkv.DocMixin.{
  CollectionMetadata, DocDatabase, find_cached, ids_from, metadata_bytes, with_cached,
}
use mochi_rkv.DocMixin.Docs.{doc_store, count_stored, with_kv}
use mochi_rkv.DocMixin.Keys.{key_from_id}
use mochi_rkv.DocMixin.Metadata.{
  put_metadata_lem, put_metadata_cached, get_metadata_cached, with_metadata_cached,
  find_cached-set_cached,
}
use mochi_rkv.DocMixin.Requests.{
  doc_pairs, doc_view, stored_at, keys_of-doc_pairs, key_sizes-doc_pairs, vals_of-doc_pairs,
  new_ids_lem, put_all-doc_pairs, name-ne, if_same_ne, if_same_refl,
}

-- The metadata behind a docStore of n documents: first the ids are taken, then they are counted.
abbrev pub taken : ℕ → CollectionMetadata → CollectionMetadata
taken n m = record m { next_id = add_size m.next_id n }

abbrev pub counted : ℕ → CollectionMetadata → CollectionMetadata
counted n m = record (taken n m) { size = add_size m.size n }

module _ (name : Bytes) (mode : Mode) (heap at : ℕ) (docs : List Bytes) (db : DocDatabase)
    (m : CollectionMetadata) where
  abbrev pairs : List (Bytes × Bytes)
  pairs = doc_pairs name m.next_id docs

  -- The database with the documents, and the one that docStore leaves.
  abbrev with_docs : DocDatabase
  with_docs = with_kv (put_rounds mode pairs db.kv) (with_cached name (taken (length docs) m) db)

  abbrev pub after_store : DocDatabase
  after_store = with_cached name (counted (length docs) m) (record with_docs {
    kv = stepped (mode_of 0) name (metadata_bytes (counted (length docs) m)) with_docs.kv;
  })

  module _ (named : is_nil name ≡ false) (short : length name < size_mod) (plain : IsPlain mode)
      (here : db.kv.has_migrated ≡ false) (o : IsStrictTotal db.kv.cmp)
      (found : find_cached name db.cached ≡ some m) (ids_short : m.next_id + length docs < size_mod)
      (kshort : length (concat (keys_of pairs)) < size_mod)
      (vshort : length (concat docs) < size_mod) where
    cmp_kept : IsStrictTotal with_docs.kv.cmp
    cmp_kept = rw (cmp-put_rounds mode pairs db.kv) o

    put_run :
        put mode
          (keys_at heap (keys_of pairs))
          (sizes_of (keys_of pairs))
          (keys_at at docs)
          (sizes_of docs)
          db.kv
        ≡ (returned success, put_rounds mode pairs db.kv)
    put_run =
        let vals = vals_of-doc_pairs name m.next_id docs in
        let e = put_plain mode plain db.kv here o heap at pairs kshort (rw vals vshort) in
        rw vals at e

    doc_store_runs :
        doc_store name mode heap
          (keys_at at docs)
          (sizes_of docs)
          (length docs)
          ((λ d. d), (λ d. d))
          db
        ≡ (returned success, ids_from m.next_id (length docs), after_store)
    unfolding doc_store count_stored
    doc_store_runs =
        with_metadata_cached name named short m db [] _ found
        ∙ (rw (put_metadata_cached name named short (taken (length docs) m) db) (
            rw
              (
                new_ids_lem m.next_id (length docs) ids_short,
                keys_of-doc_pairs name m.next_id docs,
                key_sizes-doc_pairs name m.next_id docs,
              )
              (rw put_run (
                rw
                  (get_metadata_cached name named short (taken (length docs) m) with_docs
                    (find_cached-set_cached name (taken (length docs) m) db.cached))
                  (rw
                    (put_metadata_lem name named short (counted (length docs) m) with_docs
                      (has_migrated-put_rounds mode pairs db.kv ∙ here) cmp_kept)
                    refl)))))

    view-after_store :
        (id : ℕ)
        → id < size_mod
        → doc_view name after_store id ≡ stored_at m.next_id docs id (doc_view name db id)
    view-after_store id h =
        put_key_view (mode_of 0) name (metadata_bytes (counted (length docs) m)) with_docs.kv
          cmp_kept (key_from_id name id)
        ∙ if_same_ne with_docs.kv.cmp cmp_kept name (key_from_id name id) _ _ (name-ne name id)
        ∙ (λ i. view-put_rounds mode pairs db.kv o i (key_from_id name id))
        ∙ put_all-doc_pairs db.kv.cmp o mode plain name m.next_id docs (view db.kv) id ids_short h

    metadata-after_store :
        view after_store.kv name ≡ some (metadata_bytes (counted (length docs) m))
    unfolding mode_of
    metadata-after_store =
        put_key_view (mode_of 0) name (metadata_bytes (counted (length docs) m)) with_docs.kv
          cmp_kept name
        ∙ if_same_refl with_docs.kv.cmp cmp_kept name _ _

    -- A docStore without flags of documents one behind the other, to a collection whose metadata are
    -- in the cache, while no other thread changes the database: it succeeds and returns the ids from
    -- next_id on; each of these ids then holds its document, and all other ids hold what they did;
    -- the metadata in the cache and in the map count the documents and the ids that are taken.
    pub mixin_store_refines :
        (doc_store name mode heap
            (keys_at at docs)
            (sizes_of docs)
            (length docs)
            ((λ d. d), (λ d. d))
            db
          ≡ (returned success, ids_from m.next_id (length docs), after_store))
        × ((id : ℕ)
            → id < size_mod
            → doc_view name after_store id ≡ stored_at m.next_id docs id (doc_view name db id))
        × (find_cached name after_store.cached ≡ some (counted (length docs) m))
        × (view after_store.kv name ≡ some (metadata_bytes (counted (length docs) m)))
    mixin_store_refines = (
      doc_store_runs,
      view-after_store,
      find_cached-set_cached name (counted (length docs) m) with_docs.cached,
      metadata-after_store,
    )
