-- ===== src/MapBackend/Gets.antt =====
-- What a packed get writes.
use mochi_rkv.Prelude.{
  ℕ, ◌+◌, ◌-◌, ◌≤◌, ◌<◌, ◌≡◌, refl, ap, ◌∙◌, Bool, true, false, List, [], ◌∷◌, ◌++◌, length, Option,
  none, some, arith, le→ltb, ==_iff, ◌==◌, inl, inr, Option-cases,
}
use mochi_rkv.Common.{
  Bytes, Mode, UserMem, Ret, returned, success, size_too_small, size_mod, key_not_found, slice,
  add_size,
}
use mochi_rkv.OrderedMap.{find}
use mochi_rkv.Filters.{copy_whole}
use mochi_rkv.MapBackend.{MapDatabase, Wake, Looked, look, after_look}
use mochi_rkv.MapBackend.Read.{
  Slot, only, copy_slot, push_packed, get_packed, packed_round, get, GetResult, finish, consumed,
}
use mochi_rkv.MapBackend.Request.{concat, sizes_of, slice_item, next_offset, later_part}
use mochi_rkv.MapBackend.Lookups.{after_look_lem, keys_at}
use mochi_rkv.MapBackend.Listed.{Inside}

copy_slot-inside :
    (at room : ℕ) (v : Bytes)
    → (length (copy_slot at room v).written ≤ room)
      × (((copy_slot at room v).value == size_too_small) ≡ false
          → (copy_slot at room v).value ≡ length (copy_slot at room v).written)
unfolding copy_whole
copy_slot-inside at room v = ground arith

after_look_cases {ℓ κ} :
    {O : Type ℓ} (P : Ret × O × MapDatabase → Type κ) (l : Looked × MapDatabase × List Wake) (o : O)
    (next : Option Bytes → List Wake → MapDatabase → Ret × O × MapDatabase)
    → ((r : Ret) (s : MapDatabase) → P (r, o, s))
    → ((found : Option Bytes) (ws : List Wake) (s : MapDatabase) → P (next found ws s))
    → P (after_look l o next)
unfolding after_look
after_look_cases P (Looked.hit v, s, ws) o next ends goes = goes (some v) ws s
after_look_cases P (Looked.miss, s, ws) o next ends goes = goes none ws s
after_look_cases P (Looked.gave_up, s, ws) o next ends goes = ends _ s
after_look_cases P (Looked.waiting, s, ws) o next ends goes = ends _ s

abbrev pub Outcome : Type 0
Outcome = Ret × (List Slot × ℕ) × MapDatabase

packed_round-Inside :
    (buf_size voff room : ℕ) (small : Bool) (rest : ℕ → ℕ → Bool → Outcome) (found : Option Bytes)
    → voff + room ≤ buf_size
    → ((v r : ℕ) (b : Bool) → v + r ≤ buf_size → Inside buf_size (rest v r b).1.0)
    → Inside buf_size (packed_round voff room small rest found).1.0
unfolding packed_round
packed_round-Inside buf_size voff room small rest none h later =
    (omega arith, later voff room small h)
packed_round-Inside buf_size voff room true rest (some v) h later =
    (omega arith, later voff room true h)
packed_round-Inside buf_size voff room false rest (some v) h later =
    let slot = copy_slot voff room v in
    ground (
      arith,
      copy_slot-inside voff room v,
      later voff room true h,
      later (voff + slot.value) (room - slot.value) false,
    )

-- A packed get writes inside of the buffer for the values only, on every request and every branch.
pub get_packed-Inside :
    (mode : Mode) (keys : UserMem) (buf_size koff voff room : ℕ) (small : Bool) (ksizes : List ℕ)
    (ws : List Wake) (s : MapDatabase)
    → voff + room ≤ buf_size
    → Inside buf_size (get_packed mode keys koff voff room small ksizes ws s).1.0
unfolding get_packed
get_packed-Inside mode keys buf_size koff voff room small [] ws s h = tt
get_packed-Inside mode keys buf_size koff voff room small (n ∷ ksizes) ws s h =
    elim (Option-cases (slice keys.bytes koff n)) [
      | inl e ↦ rw (e, get_packed) tt
      | inr (key, e) ↦
          rw (e, get_packed)
            (after_look_cases (λ (r : Outcome). Inside buf_size r.1.0)
              (look mode.wait (keys.addr + koff) key ws s) ([], room) _ (λ r t. tt)
              λ found ws' s'. packed_round-Inside buf_size voff room small _ found h λ v r b l.
                get_packed-Inside mode keys buf_size (add_size koff n) v r b ksizes ws' s' l)
    ]

abbrev pub found_size : Option Bytes → ℕ
found_size none = 0
found_size (some v) = length v

abbrev pub got_slot : ℕ → Option Bytes → Slot
got_slot at none = only key_not_found at
got_slot at (some v) = record { value = length v; at = at; written = v }

-- The abstract packed get: the values one behind the other, KeyNotFound for a key that is not there.
abbrev pub got_all : ℕ → List Bytes → MapDatabase → List Slot
got_all at [] s = []
got_all at (k ∷ ks) s =
    let found = find s.cmp k s.db in got_slot at found ∷ got_all (at + found_size found) ks s

-- The bytes that the values of these keys take.
abbrev pub needed : List Bytes → MapDatabase → ℕ
needed [] s = 0
needed (k ∷ ks) s = found_size (find s.cmp k s.db) + needed ks s

packed_round-fits :
    (voff room : ℕ) (rest : ℕ → ℕ → Bool → Outcome) (found : Option Bytes)
    → found_size found ≤ room
    → room < size_too_small
    → packed_round voff room false rest found
      ≡ push_packed
          (got_slot voff found)
          (rest (voff + found_size found) (room - found_size found) false)
unfolding packed_round copy_whole
packed_round-fits voff room rest none h b = rw (zero_right voff) (rw (zero_less room))
  where
    zero_right : (n : ℕ) → n + 0 ≡ n
    zero_right n = omega arith

    zero_less : (n : ℕ) → n - 0 ≡ n
    zero_less n = omega arith
packed_round-fits voff room rest (some v) h b =
    rw (le→ltb room (length v) h) (rw (not_small (length v) (omega arith)))
  where
    not_small : (n : ℕ) → n < size_too_small → (n == size_too_small) ≡ false
    not_small n l = ground arith

module _ (mode : Mode) (ws : List Wake) (s : MapDatabase) (addr : ℕ) (buf : Bytes)
    (no_wait : mode.wait ≡ false) (short : length buf < size_mod) where
  get_packed_lem :
      (before : Bytes) (voff room : ℕ) (ks : List Bytes)
      → buf ≡ before ++ concat ks
      → needed ks s ≤ room
      → room < size_too_small
      → get_packed mode
          (record { addr = addr; bytes = buf })
          (length before)
          voff
          room
          false
          (sizes_of ks)
          ws
          s
        ≡ (returned success, (got_all voff ks s, room - needed ks s), s)
  unfolding get_packed
  get_packed_lem before voff room [] e h b = ap (λ r. (returned success, ([], r), s)) (omega arith)
  get_packed_lem before voff room (k ∷ ks) e h b =
      let v = find s.cmp k s.db in
      rw (slice_item buf before k (concat ks) e, get_packed)
        (rw no_wait (
          rw after_look_lem (
            rw (next_offset buf before k (concat ks) e short) (
              packed_round-fits voff room _ v (omega arith) b
              ∙ rw
                  (get_packed_lem (before ++ k) (voff + found_size v) (room - found_size v) ks
                    (later_part buf before k (concat ks) e) (omega arith) (omega arith))
                  (ap (λ r. (returned success, (got_all voff (k ∷ ks) s, r), s)) (omega arith))))))

-- The result of a packed get that finds room for the values.
abbrev pub got_result : List Bytes → ℕ → MapDatabase → GetResult
got_result ks buf_size s = record {
  ret = returned success;
  slots = got_all 0 ks s;
  vals_size = some (buf_size - (buf_size - needed ks s));
  after = s;
}

module _ (mode : Mode) (ks : List Bytes) (ws later : List Wake) (s : MapDatabase)
    (addr buf_size : ℕ) (vsizes : List ℕ) (window : MapDatabase → MapDatabase)
    (no_wait : mode.wait ≡ false) (here : s.has_migrated ≡ false)
    (short : length (concat ks) < size_mod) (same : length (sizes_of ks) ≡ length vsizes)
    (room : needed ks s ≤ buf_size) (small : buf_size < size_too_small) where
  get_runs :
      get mode true (keys_at addr ks) (sizes_of ks) buf_size vsizes ws window later s
      ≡ consumed mode (keys_at addr ks) (sizes_of ks) window later (got_result ks buf_size s)
  unfolding get finish
  get_runs = rw ((==_iff (length (sizes_of ks)) (length vsizes)).1 same) (
      simp here (
        rw (
          get_packed_lem mode ws s addr (concat ks) no_wait short [] 0 buf_size ks refl room
            small)))

  -- Without WAIT and CONSUME, on a well-formed request to a database that has not migrated, with room
  -- for the values: a packed get succeeds, returns the values one behind the other with their
  -- sizes, KeyNotFound where there is none, and the size of them all, and changes nothing.
  pub get_answers :
      mode.consume ≡ false
      → get mode true (keys_at addr ks) (sizes_of ks) buf_size vsizes ws window later s
        ≡ record (got_result ks buf_size s) { vals_size = some (needed ks s) }
  unfolding consumed
  get_answers keeps =
      get_runs
      ∙ rw (keeps, consumed)
          (ap (λ n. record (got_result ks buf_size s) { vals_size = some n }) (omega arith))
