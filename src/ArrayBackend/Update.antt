-- ===== src/ArrayBackend/Update.antt =====
-- docUpdate: the documents of the request take the places of their ids.
use mochi_rkv.Prelude.{ℕ, suc, ◌-◌, List, [], ◌∷◌, ◌++◌, length, set, replicate, Option, none, some}
use mochi_rkv.Common.{Bytes}
use mochi_rkv.ArrayBackend.{Collection}
use mochi_rkv.ArrayBackend.Docs.{fill_ids, updated}

-- A request: each id with its document.
abbrev pub ids_in : List (ℕ × Bytes) → List ℕ
ids_in [] = []
ids_in ((id, d) ∷ us) = id ∷ ids_in us

abbrev pub bodies : List (ℕ × Bytes) → List Bytes
bodies [] = []
bodies ((id, d) ∷ us) = d ∷ bodies us

-- The abstract update: ids up to the one that is updated are made where they are missing.
abbrev pub put_doc : ℕ → Bytes → List (Option Bytes) → List (Option Bytes)
put_doc id d docs = set (docs ++ replicate (suc id - length docs) none) id (some d)

abbrev pub put_docs : List (ℕ × Bytes) → List (Option Bytes) → List (Option Bytes)
put_docs [] docs = docs
put_docs ((id, d) ∷ us) docs = put_docs us (put_doc id d docs)

abbrev put_in : ℕ → Bytes → Collection → Collection
put_in id d c = updated (c.bytes ++ d) (length c.bytes) (length d) id (fill_ids id c)

abbrev put_all : List (ℕ × Bytes) → Collection → Collection
put_all [] c = c
put_all ((id, d) ∷ us) c = put_all us (put_in id d c)
