-- ===== src/UnorderedMap/Packed.antt =====
-- The loop of a packed get of the unordered_map database beside that of the map database.
use mochi_rkv.Prelude.{
  ℕ, ◌+◌, ◌-◌, refl, ap, Bool, true, false, List, [], ◌∷◌, Option, none, some, ◌==◌, Bool-cases,
  Option-cases, inl, inr,
}
use mochi_rkv.Common.{Bytes, Mode, UserMem, Ret, slice, add_size, size_too_small}
use mochi_rkv.MapBackend
use mochi_rkv.MapBackend.{MapDatabase}
use mochi_rkv.MapBackend.Read as MapRead
use mochi_rkv.MapBackend.Read.{
  packed_round, push_packed, Slot, only, copy_slot, is_some, value_size,
}
use mochi_rkv.UnorderedMap.{UnorderedMapDatabase, Wake}
use mochi_rkv.UnorderedMap.Read.{get_packed}
use mochi_rkv.UnorderedMap.Related.{Related, AllRelated, Same}
use mochi_rkv.UnorderedMap.Rounds.{after_look-related}

-- A slot that is written first.
pushed :
    (o : Slot) (x : Ret × (List Slot × ℕ) × UnorderedMapDatabase)
    (y : Ret × (List Slot × ℕ) × MapDatabase)
    → Same x y
    → Same (push_packed o x) (push_packed o y)
pushed o x y h = (h.0, ap (λ (p : List Slot × ℕ). (o ∷ p.0, p.1)) h.1, h.2)

module _ (voff room : ℕ) (rest : ℕ → ℕ → Bool → Ret × (List Slot × ℕ) × UnorderedMapDatabase)
    (rest' : ℕ → ℕ → Bool → Ret × (List Slot × ℕ) × MapDatabase)
    (same : (v r : ℕ) (b : Bool) → Same (rest v r b) (rest' v r b)) where
  packed_round-same :
      (small : Bool) (found : Option Bytes)
      → Same (packed_round voff room small rest found) (packed_round voff room small rest' found)
  unfolding packed_round
  packed_round-same true none = pushed _ _ _ (same voff room true)
  packed_round-same false none = pushed _ _ _ (same voff room false)
  packed_round-same true (some v) = pushed _ _ _ (same voff room true)
  packed_round-same false (some v) =
      let slot = copy_slot voff room v in
      elim (Bool-cases (slot.value == size_too_small)) [
        | inl e ↦ rw (e, packed_round) (pushed slot _ _ (same voff room true))
        | inr e ↦
            rw (e, packed_round)
              (pushed slot _ _ (same (voff + slot.value) (room - slot.value) false))
      ]

module _ (mode : Mode) (keys : UserMem) where
  pub get_packed-related :
      (koff voff room : ℕ) (small : Bool) (ksizes : List ℕ) (ws : List Wake)
      (ws' : List MapBackend.Wake) (u : UnorderedMapDatabase) (s : MapDatabase)
      → AllRelated ws ws'
      → Related u s
      → Same
          (get_packed mode keys koff voff room small ksizes ws u)
          (MapRead.get_packed mode keys koff voff room small ksizes ws' s)
  unfolding get_packed MapRead.get_packed
  get_packed-related koff voff room small [] ws ws' u s a r = (refl, refl, r)
  get_packed-related koff voff room small (n ∷ ksizes) ws ws' u s a r =
      elim (Option-cases (slice keys.bytes koff n)) [
        | inl f ↦ rw (f, get_packed, MapRead.get_packed) (refl, refl, r)
        | inr (key, f) ↦
            rw (f, get_packed, MapRead.get_packed)
              (after_look-related ([], room) _ _
                (λ found ws ws' u s a r.
                  packed_round-same voff room _ _
                    (λ v q b. get_packed-related (add_size koff n) v q b ksizes ws ws' u s a r)
                    small found)
                mode.wait (keys.addr + koff) key ws ws' u s a r)
      ]
