-- ===== src/DocMixin/Metadata.antt =====
-- The metadata of a collection: it comes back from its bytes and from the cache.
use mochi_rkv.Prelude.{
  ◌<◌, ◌≡◌, refl, arith, Bool-cases, inl, inr, true, false, [], ◌∷◌, length, some,
}
use mochi_rkv.Common.{Bytes, size_mod, success, returned, mode_of, Ret}
use mochi_rkv.Bytes.{IsStrictTotal}
use mochi_rkv.Bytes.Codec.{to_le, of_le-to_le}
use mochi_rkv.Watcher.{same_key}
use mochi_rkv.Watcher.Laws.{same_key_refl}
use mochi_rkv.MapBackend.{MapDatabase}
use mochi_rkv.MapBackend.Write.{put}
use mochi_rkv.MapBackend.Listing.{is_nil}
use mochi_rkv.MapBackend.Rounds.{stepped}
use mochi_rkv.MapBackend.Plain.{IsPlain, put_single}
use mochi_rkv.DocMixin.{
  CollectionMetadata, DocDatabase, Cached, find_cached, set_cached, metadata_bytes, metadata_of,
  get_metadata, put_metadata, with_metadata, metadata_size, with_cached, mem,
}

pub length-metadata_bytes : (m : CollectionMetadata) → length (metadata_bytes m) ≡ metadata_size
unfolding metadata_bytes to_le
length-metadata_bytes m = refl

-- The struct comes back from its bytes.
pub metadata_of-metadata_bytes :
    (m : CollectionMetadata)
    → m.size < size_mod
    → m.next_id < size_mod
    → metadata_of (metadata_bytes m) ≡ m
unfolding metadata_of metadata_bytes to_le
metadata_of-metadata_bytes m h h' =
    λ i. record { size = of_le-to_le m.size h i; next_id = of_le-to_le m.next_id h' i }

pub find_cached-set_cached :
    (name : Bytes) (m : CollectionMetadata) (l : Cached)
    → find_cached name (set_cached name m l) ≡ some m
unfolding find_cached set_cached
find_cached-set_cached name m [] = rw (same_key_refl name) refl
find_cached-set_cached name m ((other, m') ∷ l) = elim (Bool-cases (same_key name other)) [
  | inl t ↦ rw t (rw t refl)
  | inr t ↦ rw t (rw t (find_cached-set_cached name m l))
]

-- put in mode 0
pub zero-IsPlain : IsPlain (mode_of 0)
unfolding mode_of
zero-IsPlain = record { new_only_off = refl; exist_only_off = refl; append_off = refl }

module _ (name : Bytes) (named : is_nil name ≡ false) (short : length name < size_mod) where
  put_image :
      (m : CollectionMetadata) (s : MapDatabase)
      → s.has_migrated ≡ false
      → IsStrictTotal s.cmp
      → put
          (mode_of 0)
          (mem 0 name)
          (length name ∷ [])
          (mem 0 (metadata_bytes m))
          (metadata_size ∷ [])
          s
        ≡ (returned success, stepped (mode_of 0) name (metadata_bytes m) s)
  unfolding metadata_bytes to_le
  put_image m s here o =
      put_single (mode_of 0) zero-IsPlain s here o 0 0 name (metadata_bytes m) short (omega arith)

  pub put_metadata_lem :
      (m : CollectionMetadata) (db : DocDatabase)
      → db.kv.has_migrated ≡ false
      → IsStrictTotal db.kv.cmp
      → put_metadata name m true db ≡ (
        returned success,
        with_cached name m (record db { kv = stepped (mode_of 0) name (metadata_bytes m) db.kv }),
      )
  unfolding put_metadata
  put_metadata_lem m db here o = rw (named, put_image m db.kv here o) refl

  pub put_metadata_cached :
      (m : CollectionMetadata) (db : DocDatabase)
      → put_metadata name m false db ≡ (returned success, with_cached name m db)
  unfolding put_metadata
  put_metadata_cached m db = rw named refl

  pub get_metadata_cached :
      (m : CollectionMetadata) (db : DocDatabase)
      → find_cached name db.cached ≡ some m
      → get_metadata name db ≡ (returned success, some m, db)
  unfolding get_metadata
  get_metadata_cached m db found = rw named (rw found refl)

  pub with_metadata_cached {ℓ} :
      {O : Type ℓ} (m : CollectionMetadata) (db : DocDatabase) (out : O)
      (next : CollectionMetadata → DocDatabase → Ret × O × DocDatabase)
      → find_cached name db.cached ≡ some m
      → with_metadata name db out next ≡ next m db
  unfolding with_metadata
  with_metadata_cached m db out next found =
      let e = get_metadata_cached m db found in rw (e, with_metadata) (rw e refl)
