-- ===== src/MapBackend/Lookups.antt =====
-- What exists, length, fetch and get answer to a well-formed request.
use mochi_rkv.Prelude.{
  ℕ, ◌<◌, ◌≤◌, ◌≡◌, refl, false, List, [], ◌∷◌, ◌++◌, map, length, Option, arith, le→ltb, ==_iff,
}
use mochi_rkv.Common.{Bytes, size_mod, success, returned, Mode, UserMem, Ret}
use mochi_rkv.OrderedMap.{find}
use mochi_rkv.MapBackend.{MapDatabase, Wake, look, after_look}
use mochi_rkv.MapBackend.Read.{
  each_key, exists, value_length, fetch, fetch_loop, is_some, value_size,
}
use mochi_rkv.MapBackend.Request.{
  concat, sizes_of, length-sizes_of, slice_item, next_offset, fits, later_part,
}

-- Without WAIT a lookup answers at once from the map, and changes nothing.
pub after_look_lem {ℓ} :
    {O : Type ℓ} (addr : ℕ) (key : Bytes) (ws : List Wake) (s : MapDatabase) (o : O)
    (next : Option Bytes → List Wake → MapDatabase → Ret × O × MapDatabase)
    → after_look (look false addr key ws s) o next ≡ next (find s.cmp key s.db) ws s
unfolding look after_look
after_look_lem addr key [] s o next = ground arith
after_look_lem addr key (w ∷ ws) s o next = ground arith

abbrev pub answers {ℓ} : {O : Type ℓ} → (Option Bytes → O) → List Bytes → MapDatabase → List O
answers out [] s = []
answers out (k ∷ ks) s = out (find s.cmp k s.db) ∷ answers out ks s

module _ (mode : Mode) (ws : List Wake) (s : MapDatabase) (addr : ℕ) (buf : Bytes)
    (no_wait : mode.wait ≡ false) (short : length buf < size_mod) where
  abbrev keys : UserMem
  keys = record { addr = addr; bytes = buf }

  each_key_lem {ℓ} :
      {O : Type ℓ} (out : Option Bytes → O) (before : Bytes) (ks : List Bytes)
      → buf ≡ before ++ concat ks
      → each_key mode keys out (length before) (sizes_of ks) ws s
        ≡ (returned success, answers out ks s, s)
  unfolding each_key
  each_key_lem out before [] e = refl
  each_key_lem out before (k ∷ ks) e = rw (fits buf before k (concat ks) e short) (
      rw (slice_item buf before k (concat ks) e) (
        rw no_wait (
          rw after_look_lem (
            rw (next_offset buf before k (concat ks) e short)
              (rw (each_key_lem out (before ++ k) ks (later_part buf before k (concat ks) e)))))))

  fetch_loop_lem :
      (before : Bytes) (ks : List Bytes)
      → buf ≡ before ++ concat ks
      → fetch_loop mode keys (length before) (sizes_of ks) ws s
        ≡ (returned success, map (λ k. (k, find s.cmp k s.db)) ks, s)
  unfolding fetch_loop
  fetch_loop_lem before [] e = refl
  fetch_loop_lem before (k ∷ ks) e =
      rw (slice_item buf before k (concat ks) e, fetch_loop)
        (rw no_wait (
          rw after_look_lem (
            rw (next_offset buf before k (concat ks) e short)
              (rw (fetch_loop_lem (before ++ k) ks (later_part buf before k (concat ks) e))))))

-- A request for these keys, their bytes one behind the other at an address.
abbrev pub keys_at : ℕ → List Bytes → UserMem
keys_at addr ks = record { addr = addr; bytes = concat ks }

module _ (mode : Mode) (ks : List Bytes) (ws : List Wake) (s : MapDatabase) (addr : ℕ)
    (no_wait : mode.wait ≡ false) (here : s.has_migrated ≡ false)
    (short : length (concat ks) < size_mod) where
  -- Without WAIT, on a well-formed request to a database that has not migrated, with a flag for
  -- each key: `exists` succeeds, sets each flag to whether the map holds the key, and changes
  -- nothing.
  pub exists_answers :
      (nflags : ℕ)
      → length ks ≤ nflags
      → exists mode (keys_at addr ks) (sizes_of ks) nflags ws s
        ≡ (returned success, answers is_some ks s, s)
  unfolding exists
  exists_answers nflags room =
      rw (le→ltb nflags (length (sizes_of ks)) (omega (arith, length-sizes_of ks)))
        (simp here (each_key_lem mode ws s addr (concat ks) no_wait short is_some [] ks refl))

  -- Under the same conditions, with a size for each key: `length` succeeds, sets each size to that
  -- of the value, KeyNotFound where there is none, and changes nothing.
  pub length-answers :
      value_length mode (keys_at addr ks) (sizes_of ks) (length ks) ws s
      ≡ (returned success, answers value_size ks s, s)
  unfolding value_length
  length-answers =
      rw ((==_iff (length (sizes_of ks)) (length ks)).1 (length-sizes_of ks))
        (simp here (each_key_lem mode ws s addr (concat ks) no_wait short value_size [] ks refl))

  -- Under the same conditions: `fetch` succeeds, hands each key and what the map holds for it to
  -- the callback, in the order of the request, and changes nothing.
  pub fetch_answers :
      fetch mode (keys_at addr ks) (sizes_of ks) ws s
      ≡ (returned success, map (λ k. (k, find s.cmp k s.db)) ks, s)
  unfolding fetch
  fetch_answers = simp here (fetch_loop_lem mode ws s addr (concat ks) no_wait short [] ks refl)
