-- ===== src/DocMixin/Requests.antt =====
-- The requests that the mixin makes of the map: the keys of a run of documents, and their lookups.
use mochi_rkv.Prelude.{
  ℕ, zero, suc, ◌+◌, ◌<◌, ◌≡◌, ◌≢◌, refl, sym, ap, ◌∙◌, arith, Bool, Bool-cases, inl, inr, List, [],
  ◌∷◌, ◌++◌, length, Option, none, some, length-append, ◌==◌, if◌then◌else◌, ==_iff,
}
use mochi_rkv.Common.{Bytes, size_mod, Mode, add_size}
use mochi_rkv.Bytes.{IsStrictTotal}
use mochi_rkv.Bytes.Codec.{to_le}
use mochi_rkv.Filters.Endian.{ensure_big_endian}
use mochi_rkv.OrderedMap.Lookup.{if_same}
use mochi_rkv.MapBackend.Request.{concat, sizes_of}
use mochi_rkv.MapBackend.Rounds.{view, put_all, put_value, keys_of, vals_of}
use mochi_rkv.MapBackend.Plain.{IsPlain}
use mochi_rkv.DocMixin.{DocDatabase, ids_from}
use mochi_rkv.DocMixin.Docs.{new_ids, key_sizes}
use mochi_rkv.DocMixin.Keys.{key_from_id, keys_from_ids, id_from_key, key_size}
use mochi_rkv.DocMixin.Order.{id_from_key-key_from_id}

-- The pairs that a docStore puts for documents with the ids from one on.
abbrev pub doc_pairs : Bytes → ℕ → List Bytes → List (Bytes × Bytes)
doc_pairs name id [] = []
doc_pairs name id (d ∷ docs) = (key_from_id name id, d) ∷ doc_pairs name (id + 1) docs

-- What clients see of the documents of a collection.
abbrev pub doc_view : Bytes → DocDatabase → ℕ → Option Bytes
doc_view name db id = view db.kv (key_from_id name id)

-- The document of the id j once documents are stored from an id on, and `old` was there before.
abbrev pub stored_at : ℕ → List Bytes → ℕ → Option Bytes → Option Bytes
stored_at id [] j old = old
stored_at id (d ∷ docs) j old = stored_at (id + 1) docs j (if id == j then some d else old)

pub length-key_from_id : (name : Bytes) (id : ℕ) → length (key_from_id name id) ≡ key_size name
unfolding key_from_id to_le
length-key_from_id name id = omega (arith, length-append name (0 ∷ to_le 8 (ensure_big_endian id)))

pub keys_of-doc_pairs :
    (name : Bytes) (id : ℕ) (docs : List Bytes)
    → keys_from_ids name (ids_from id (length docs)) ≡ concat (keys_of (doc_pairs name id docs))
unfolding keys_from_ids key_from_id ids_from
keys_of-doc_pairs name id [] = refl
keys_of-doc_pairs name id (d ∷ docs) =
    ap (λ r. key_from_id name id ++ r) (keys_of-doc_pairs name (id + 1) docs)

pub key_sizes-doc_pairs :
    (name : Bytes) (id : ℕ) (docs : List Bytes)
    → key_sizes name (ids_from id (length docs)) ≡ sizes_of (keys_of (doc_pairs name id docs))
unfolding ids_from
key_sizes-doc_pairs name id [] = refl
key_sizes-doc_pairs name id (d ∷ docs) =
    rw (length-key_from_id name id)
      (ap (λ r. key_size name ∷ r) (key_sizes-doc_pairs name (id + 1) docs))

pub vals_of-doc_pairs :
    (name : Bytes) (id : ℕ) (docs : List Bytes) → vals_of (doc_pairs name id docs) ≡ docs
vals_of-doc_pairs name id [] = refl
vals_of-doc_pairs name id (d ∷ docs) = ap (λ r. d ∷ r) (vals_of-doc_pairs name (id + 1) docs)

-- The ids do not wrap below 2 ^ 64.
pub new_ids_lem : (id n : ℕ) → id + n < size_mod → new_ids id n ≡ ids_from id n
unfolding new_ids ids_from
new_ids_lem id zero h = refl
new_ids_lem id (suc n) h =
    let step : add_size id 1 ≡ id + 1 = omega arith in
    rw step (ap (λ r. id ∷ r) (new_ids_lem (id + 1) n (omega arith)))

id_or_zero : Option ℕ → ℕ
id_or_zero none = 0
id_or_zero (some id) = id

-- Different documents have different keys.
pub key_from_id-ne :
    (name : Bytes) (a b : ℕ)
    → a < size_mod
    → b < size_mod
    → a ≢ b
    → key_from_id name a ≢ key_from_id name b
unfolding id_or_zero
key_from_id-ne name a b h h' ne e = ne (
    ap id_or_zero (
      sym (id_from_key-key_from_id name a h)
      ∙ ap (id_from_key (length name)) e
      ∙ id_from_key-key_from_id name b h'))

-- The metadata of a collection is under another key than its documents.
pub name-ne : (name : Bytes) (id : ℕ) → name ≢ key_from_id name id
name-ne name id e =
    let l : length name ≡ length name + 1 + 8 = ap length e ∙ length-key_from_id name id in
    absurd (omega (arith, l))

module _ {ℓ} {A : Type ℓ} (cmp : Bytes → Bytes → Bool) (o : IsStrictTotal cmp) where
  pub if_same_ne : (k j : Bytes) (x y : A) → k ≢ j → if_same cmp k j x y ≡ y
  if_same_ne k j x y ne = ground (arith, o.total k j)

  pub if_same_refl : (k : Bytes) (x y : A) → if_same cmp k k x y ≡ x
  if_same_refl k x y = rw (o.irrefl k) refl

  pub if_same_doc :
      (name : Bytes) (id j : ℕ) (x y : A)
      → id < size_mod
      → j < size_mod
      → if_same cmp (key_from_id name id) (key_from_id name j) x y ≡ (if id == j then x else y)
  if_same_doc name id j x y h h' = elim (Bool-cases (id == j)) [
    | inl t ↦ rw (t, (==_iff id j).0 t) (if_same_refl (key_from_id name j) x y)
    | inr t ↦ rw t (
        if_same_ne (key_from_id name id) (key_from_id name j) x y
          (key_from_id-ne name id j h h' λ e. absurd (ground (arith, t, e))))
  ]

-- The puts of a docStore, on the documents that clients see.
pub put_all-doc_pairs :
    (cmp : Bytes → Bytes → Bool) (o : IsStrictTotal cmp) (mode : Mode) (plain : IsPlain mode)
    (name : Bytes) (id : ℕ) (docs : List Bytes) (f : Bytes → Option Bytes) (j : ℕ)
    → id + length docs < size_mod
    → j < size_mod
    → put_all cmp mode (doc_pairs name id docs) f (key_from_id name j)
      ≡ stored_at id docs j (f (key_from_id name j))
put_all-doc_pairs cmp o mode plain name id [] f j h h' = refl
put_all-doc_pairs cmp o mode plain name id (d ∷ docs) f j h h' =
    put_all-doc_pairs cmp o mode plain name (id + 1) docs
      (λ i. if_same cmp (key_from_id name id) i (put_value mode (f (key_from_id name id)) d) (f i))
      j (omega arith) h'
    ∙ ap (stored_at (id + 1) docs j) (
        if_same_doc cmp o name id j (put_value mode (f (key_from_id name id)) d)
          (f (key_from_id name j)) (omega arith) h'
        ∙ rw (plain.new_only_off, plain.exist_only_off, plain.append_off) refl)
