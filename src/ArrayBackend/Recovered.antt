-- ===== src/ArrayBackend/Recovered.antt =====
-- What a migration makes of the counts of the collections.
use mathlib.Core.Path.{subst}
use mochi_rkv.Prelude.{
  ℕ, zero, suc, ◌+◌, ◌≡◌, refl, ap, sym, ◌∙◌, Bool-cases, Option-cases, inl, inr, [], ◌∷◌, none,
  some, ◌==◌,
}
use mochi_rkv.Common.{Bytes, success, key_not_found}
use mochi_rkv.Watcher.{same_key}
use mochi_rkv.Bytes.Codec.{of_le}
use mochi_rkv.MapBackend.Migration.{read, sizeof_size}
use mochi_rkv.MapBackend.Snapshot.{bind_inv}
use mochi_rkv.ArrayBackend.{Collection, Collections, ArrayDatabase, find, replace, new_collection}
use mochi_rkv.ArrayBackend.Docs.{copy_to}
use mochi_rkv.ArrayBackend.Migration.{
  recover_docs, recover_collections, resize, emplaced, found_or_new, recover,
}

recover_docs_count :
    (n off : ℕ) (file : Bytes) (c : Collection) (r : Bytes × Collection)
    → recover_docs n off file c ≡ some r
    → r.1.count ≡ c.count
unfolding recover_docs
recover_docs_count zero off file c r h =
    ap {B = ℕ} (λ x. elim x [ none ↦ c.count | some y ↦ y.1.count ]) (sym h)
recover_docs_count (suc n) off file c r h =
    let (a, ea, h1) = bind_inv (read sizeof_size file) _ h in
    elim (Bool-cases (of_le a.0 == key_not_found)) [
      | inl absent ↦ recover_docs_count n off a.1 _ r (rw absent at h1)
      | inr there ↦
          let (b, eb, h2) = bind_inv (read (of_le a.0) a.1) _ (rw there at h1) in
          let (d, ed, h3) = bind_inv (copy_to (resize (off + of_le a.0) c.bytes) off b.0) _ h2 in
          recover_docs_count n (off + of_le a.0) b.1 _ r h3
    ]

-- Each collection says that it holds no document.
abbrev pub NoneCounted : Collections → Type 0
NoneCounted [] = Unit
NoneCounted ((name, c) ∷ cs) = (c.count ≡ 0) × NoneCounted cs

found-NoneCounted :
    (name : Bytes) (cs : Collections) → NoneCounted cs → (found_or_new name cs).count ≡ 0
unfolding find
found-NoneCounted name [] h = refl
found-NoneCounted name ((other, c) ∷ cs) h = elim (Bool-cases (same_key name other)) [
  | inl same ↦ rw (same, found_or_new) (h.0)
  | inr differ ↦ rw (differ, found_or_new) (found-NoneCounted name cs h.1)
]

replace-NoneCounted :
    (name : Bytes) (c : Collection) (cs : Collections)
    → NoneCounted cs
    → c.count ≡ 0
    → NoneCounted (replace name c cs)
unfolding replace
replace-NoneCounted name c [] h e = tt
replace-NoneCounted name c ((other, d) ∷ cs) h e = elim (Bool-cases (same_key name other)) [
  | inl same ↦ rw same (e, h.1)
  | inr differ ↦ rw differ (h.0, replace-NoneCounted name c cs h.1 e)
]

emplaced-NoneCounted :
    (name : Bytes) (cs : Collections) → NoneCounted cs → NoneCounted (emplaced name cs)
emplaced-NoneCounted name cs h = elim (Option-cases (find name cs)) [
  | inl absent ↦
      subst (λ x. NoneCounted (elim x [ none ↦ (name, new_collection) ∷ cs | some c ↦ cs ]))
        (sym absent) (refl, h)
  | inr (c, there) ↦
      subst (λ x. NoneCounted (elim x [ none ↦ (name, new_collection) ∷ cs | some c ↦ cs ]))
        (sym there) h
]

recover_collections-NoneCounted :
    (n : ℕ) (file : Bytes) (cs : Collections) (r : Collections)
    → NoneCounted cs
    → recover_collections n file cs ≡ some r
    → NoneCounted r
unfolding recover_collections
recover_collections-NoneCounted zero file cs r k h =
    subst NoneCounted (ap {B = Collections} (λ x. elim x [ none ↦ cs | some y ↦ y ]) h) k
recover_collections-NoneCounted (suc n) file cs r k h =
    let (a, ea, h1) = bind_inv (read sizeof_size file) _ h in
    let (b, eb, h2) = bind_inv (read (of_le a.0) a.1) _ h1 in
    let (d, ed, h3) = bind_inv (read sizeof_size b.1) _ h2 in
    let (e, ee, h4) = bind_inv (recover_docs (of_le d.0) 0 d.1 (found_or_new b.0 cs)) _ h3 in
    recover_collections-NoneCounted n e.0 _ r
      (replace-NoneCounted b.0 e.1 (emplaced b.0 cs) (emplaced-NoneCounted b.0 cs k) (
        recover_docs_count (of_le d.0) 0 d.1 (found_or_new b.0 cs) e ee
        ∙ found-NoneCounted b.0 cs k))
      h4

-- Whatever the file, the database that recover makes of it says of each collection that it holds no
-- document.
recover-NoneCounted :
    (file : Bytes) (db : ArrayDatabase)
    → recover success (some file ∷ []) ≡ some (success, some db)
    → NoneCounted db.collections
unfolding recover
recover-NoneCounted file db h =
    let (a, ea, h1) = bind_inv (read sizeof_size file) _ h in
    let (cs, ecs, h2) = bind_inv (recover_collections (of_le a.0) a.1 []) _ h1 in
    let same : cs ≡ db.collections =
      ap {B = Collections}
        (λ x. elim x [ none ↦ cs | some y ↦ elim y.1 [ none ↦ cs | some z ↦ z.collections ] ]) h2 in
    subst NoneCounted same (recover_collections-NoneCounted (of_le a.0) a.1 [] cs tt ecs)
