-- ===== src/MapBackend/Plain.antt =====
-- put without NEW_ONLY, EXIST_ONLY and APPEND: the database that it leaves, for any number of pairs.
use mathlib.Core.List.{append-nil}
use mochi_rkv.Prelude.{ℕ, ◌<◌, ◌≡◌, refl, ◌∙◌, true, false, List, [], ◌∷◌, length, some, arith}
use mochi_rkv.Common.{Bytes, size_mod, success, returned, Mode}
use mochi_rkv.Bytes.{IsStrictTotal}
use mochi_rkv.MapBackend.{MapDatabase}
use mochi_rkv.MapBackend.Write.{put, put_key}
use mochi_rkv.MapBackend.Request.{concat}
use mochi_rkv.MapBackend.Rounds.{
  put_rounds, stepped, keys_of, vals_of, put_key_cmp, put_key_migrated,
}
use mochi_rkv.MapBackend.Writes.{put_pairs, put_many, put_runs, put_loop_one, ended}

-- No flag that makes a put depend on what the map holds.
pub record IsPlain (mode : Mode) : Type 0 where
  pub new_only_off : mode.new_only ≡ false
  pub exist_only_off : mode.exist_only ≡ false
  pub append_off : mode.append ≡ false

module _ (mode : Mode) (plain : IsPlain mode) (s : MapDatabase) (here : s.has_migrated ≡ false)
    (o : IsStrictTotal s.cmp) where
  ended_plain :
      (k v : Bytes)
      → ended (put_key mode true k (some v) s) s ≡ (returned success, stepped mode k v s)
  unfolding put_key
  ended_plain k v = ground (arith, plain.new_only_off, plain.exist_only_off)

  pub put_plain :
      (a b : ℕ) (kvs : List (Bytes × Bytes))
      → length (concat (keys_of kvs)) < size_mod
      → length (concat (vals_of kvs)) < size_mod
      → put_pairs mode a b kvs s ≡ (returned success, put_rounds mode kvs s)
  put_plain a b [] h h' = (put_many mode a b [] s here h h' o (omega arith)).0
  put_plain a b ((k, v) ∷ []) h h' =
      put_runs mode a b ((k, v) ∷ []) s here h h' ∙ put_loop_one mode k v s a b ∙ ended_plain k v
  put_plain a b (kv ∷ kv' ∷ kvs) h h' =
      (put_many mode a b (kv ∷ kv' ∷ kvs) s here h h' o (omega arith)).0

  pub put_single :
      (a b : ℕ) (k v : Bytes)
      → length k < size_mod
      → length v < size_mod
      → put mode
          (record { addr = a; bytes = k })
          (length k ∷ [])
          (record { addr = b; bytes = v })
          (length v ∷ [])
          s
        ≡ (returned success, stepped mode k v s)
  put_single a b k v h h' =
      let e = put_plain a b ((k, v) ∷ []) (rw (append-nil k) h) (rw (append-nil v) h') in
      rw (append-nil k, append-nil v) at e

pub cmp-put_rounds :
    (mode : Mode) (kvs : List (Bytes × Bytes)) (s : MapDatabase)
    → (put_rounds mode kvs s).cmp ≡ s.cmp
cmp-put_rounds mode [] s = refl
cmp-put_rounds mode ((k, v) ∷ kvs) s =
    cmp-put_rounds mode kvs (stepped mode k v s) ∙ put_key_cmp mode k v s

pub has_migrated-put_rounds :
    (mode : Mode) (kvs : List (Bytes × Bytes)) (s : MapDatabase)
    → (put_rounds mode kvs s).has_migrated ≡ s.has_migrated
has_migrated-put_rounds mode [] s = refl
has_migrated-put_rounds mode ((k, v) ∷ kvs) s =
    has_migrated-put_rounds mode kvs (stepped mode k v s) ∙ put_key_migrated mode k v s
