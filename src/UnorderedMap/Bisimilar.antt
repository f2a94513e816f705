-- ===== src/UnorderedMap/Bisimilar.antt =====
-- What clients see of the unordered_map database and of the map database.
use mochi_rkv.Prelude.{
  ℕ, ◌-◌, ◌≡◌, refl, Bool, true, false, List, Option, none, some, ltb, ◌==◌, not, if◌then◌else◌,
  Bool-cases, inl, inr, length,
}
use mochi_rkv.Common.{Mode, UserMem, Ret, returned, success, blocked, fault, size}
use mochi_rkv.MapBackend
use mochi_rkv.MapBackend.{MapDatabase}
use mochi_rkv.MapBackend.Read as MapRead
use mochi_rkv.MapBackend.Read.{
  packed_round, push_packed, Slot, only, copy_slot, is_some, value_size,
}
use mochi_rkv.MapBackend.Write as MapWrite
use mochi_rkv.UnorderedMap.{UnorderedMapDatabase, Wake}
use mochi_rkv.UnorderedMap.Read.{
  exists, value_length, get_each, get_packed, get, consumed, finished, is_success, GetResult,
}
use mochi_rkv.UnorderedMap.Write.{put, erase}
use mochi_rkv.UnorderedMap.Related.{Related, AllRelated, Same}
use mochi_rkv.UnorderedMap.Rounds.{each_key-related, erase_loop-related, get_each-related}
use mochi_rkv.UnorderedMap.Puts.{SamePut, put_loop-Related}
use mochi_rkv.UnorderedMap.Packed.{get_packed-related}

module _ (mode : Mode) (keys : UserMem) (ksizes : List ℕ) (ws : List Wake)
    (ws' : List MapBackend.Wake) (u : UnorderedMapDatabase) (s : MapDatabase)
    (a : AllRelated ws ws') (r : Related u s) where
  exists-related :
      (nflags : ℕ)
      → Same (exists mode keys ksizes nflags ws u) (MapRead.exists mode keys ksizes nflags ws' s)
  unfolding exists MapRead.exists
  exists-related nflags = elim (Bool-cases (ltb nflags (length ksizes))) [
    | inl e ↦ rw (e, exists, MapRead.exists) (refl, refl, r)
    | inr e ↦
        rw (e, exists, MapRead.exists)
          (elim (Bool-cases s.has_migrated) [
            | inl m ↦ simp (m, r.migrated) (refl, refl, r)
            | inr m ↦
                simp (m, r.migrated) (each_key-related mode keys is_some 0 ksizes ws ws' u s a r)
          ])
  ]

  length-related :
      (nvsizes : ℕ)
      → Same
          (value_length mode keys ksizes nvsizes ws u)
          (MapRead.value_length mode keys ksizes nvsizes ws' s)
  unfolding value_length MapRead.value_length
  length-related nvsizes = elim (Bool-cases (not (length ksizes == nvsizes))) [
    | inl e ↦ rw (e, value_length, MapRead.value_length) (refl, refl, r)
    | inr e ↦
        rw (e, value_length, MapRead.value_length)
          (elim (Bool-cases s.has_migrated) [
            | inl m ↦ simp (m, r.migrated) (refl, refl, r)
            | inr m ↦
                simp (m, r.migrated) (each_key-related mode keys value_size 0 ksizes ws ws' u s a r)
          ])
  ]

  pub erase-related : Same (erase mode keys ksizes ws u) (MapWrite.erase mode keys ksizes ws' s)
  unfolding erase MapWrite.erase
  erase-related = elim (Bool-cases s.has_migrated) [
    | inl m ↦ simp (m, r.migrated) (refl, refl, r)
    | inr m ↦ simp (m, r.migrated) (erase_loop-related mode keys 0 ksizes ws ws' u s a r)
  ]

  put-related :
      (vals : UserMem) (vsizes : List ℕ)
      → SamePut (put mode keys ksizes vals vsizes u) (MapWrite.put mode keys ksizes vals vsizes s)
  unfolding put MapWrite.put
  put-related vals vsizes =
      let run = put_loop-Related mode (length ksizes == 1) keys vals 0 0 ksizes vsizes u s r in
      elim (Bool-cases (not (length ksizes == length vsizes))) [
        | inl e ↦ rw (e, put, MapWrite.put) (refl, r)
        | inr e ↦
            rw (e, put, MapWrite.put)
              (elim (Bool-cases (ltb (size keys) (MapWrite.accumulate 0 ksizes))) [
                | inl e ↦ rw (e, put, MapWrite.put) (refl, r)
                | inr e ↦
                    rw (e, put, MapWrite.put)
                      (elim (Bool-cases (ltb (size vals) (MapWrite.accumulate 0 vsizes))) [
                        | inl e ↦ rw (e, put, MapWrite.put) (refl, r)
                        | inr e ↦
                            rw (e, put, MapWrite.put)
                              (elim (Bool-cases s.has_migrated) [
                                | inl m ↦ simp (m, r.migrated) (refl, r)
                                | inr m ↦ simp (m, r.migrated) run
                              ])
                      ])
              ])
      ]

-- The same outcome of get.
pub record SameGet (g : GetResult) (h : MapRead.GetResult) : Type 0 where
  pub ret : g.ret ≡ h.ret
  pub slots : g.slots ≡ h.slots
  pub vals_size : g.vals_size ≡ h.vals_size
  pub after : Related g.after h.after

-- What the map database does behind the loop of get.
finish_lem :
    (f : MapRead.GetResult → MapRead.GetResult) (ret : Ret) (slots : List Slot)
    (vals_size : Option ℕ) (s : MapDatabase)
    → MapRead.finish f (record { ret = ret; slots = slots; vals_size = vals_size; after = s }) ≡ (
        if is_success ret
        then f (record { ret = ret; slots = slots; vals_size = vals_size; after = s })
        else record { ret = ret; slots = slots; vals_size = none; after = s })
unfolding MapRead.finish
finish_lem f (returned success) slots vals_size s = refl
finish_lem f (returned st) slots vals_size s = refl
finish_lem f blocked slots vals_size s = refl
finish_lem f fault slots vals_size s = refl

module _ (mode : Mode) (keys : UserMem) (ksizes : List ℕ) (later : List Wake)
    (later' : List MapBackend.Wake) (b : AllRelated later later')
    (window : UnorderedMapDatabase → UnorderedMapDatabase) (window' : MapDatabase → MapDatabase)
    (keeps : (u : UnorderedMapDatabase) (s : MapDatabase)
      → Related u s
      → Related (window u) (window' s)) where
  finished-same :
      (ret : Ret) (slots : List Slot) (vals_size : Option ℕ) (u : UnorderedMapDatabase)
      (s : MapDatabase)
      → Related u s
      → SameGet (finished mode keys ksizes window later vals_size (ret, slots, u)) (
          MapRead.finish
            (MapRead.consumed mode keys ksizes window' later')
            (record { ret = ret; slots = slots; vals_size = vals_size; after = s }))
  unfolding finished consumed MapRead.consumed
  finished-same ret slots vals_size u s r =
      rw (finish_lem (MapRead.consumed mode keys ksizes window' later') ret slots vals_size s)
        (elim (Bool-cases (is_success ret)) [
          | inl e ↦ rw e (elim (Bool-cases mode.consume) [
            | inl c ↦
                (let gone =
                    erase-related mode keys ksizes later later' (window u) (window' s) b
                      (keeps u s r) in
                  simp c (record { ret = gone.0; slots = refl; vals_size = refl; after = gone.2 }))
            | inr c ↦ simp c (record { ret = refl; slots = refl; vals_size = refl; after = r })
          ])
          | inr e ↦ rw e (record { ret = refl; slots = refl; vals_size = refl; after = r })
        ])

  got-Related :
      (packed : Bool) (vals_size : ℕ) (vsizes : List ℕ) (ws : List Wake)
      (ws' : List MapBackend.Wake) (u : UnorderedMapDatabase) (s : MapDatabase)
      → AllRelated ws ws'
      → Related u s
      → SameGet
          (if packed
            then (let (r, (slots, room), s') =
                  get_packed mode keys 0 0 vals_size false ksizes ws u in
                finished mode keys ksizes window later (some (vals_size - room)) (r, slots, s'))
            else finished mode keys ksizes window later none
                (get_each mode keys 0 0 ksizes vsizes ws u))
          (MapRead.finish (MapRead.consumed mode keys ksizes window' later') (
            if packed
            then (let (r, out, s') =
                  MapRead.get_packed mode keys 0 0 vals_size false ksizes ws' s in
                let (slots, room) = out in
                record { ret = r; slots = slots; vals_size = some (vals_size - room); after = s' })
            else (let (r, slots, s') = MapRead.get_each mode keys 0 0 ksizes vsizes ws' s in
                record { ret = r; slots = slots; vals_size = none; after = s' })))
  got-Related true vals_size vsizes ws ws' u s a r =
      let h = get_packed-related mode keys 0 0 vals_size false ksizes ws ws' u s a r in
      rw (h.0, h.1)
        (finished-same _ _ _ (get_packed mode keys 0 0 vals_size false ksizes ws u).2
          (MapRead.get_packed mode keys 0 0 vals_size false ksizes ws' s).2 h.2)
  got-Related false vals_size vsizes ws ws' u s a r =
      let h = get_each-related mode keys 0 0 ksizes vsizes ws ws' u s a r in
      rw (h.0, h.1)
        (finished-same _ _ _ (get_each mode keys 0 0 ksizes vsizes ws u).2
          (MapRead.get_each mode keys 0 0 ksizes vsizes ws' s).2 h.2)

  get-Related :
      (packed : Bool) (vals_size : ℕ) (vsizes : List ℕ) (ws : List Wake)
      (ws' : List MapBackend.Wake) (u : UnorderedMapDatabase) (s : MapDatabase)
      → AllRelated ws ws'
      → Related u s
      → SameGet
          (get mode packed keys ksizes vals_size vsizes ws window later u)
          (MapRead.get mode packed keys ksizes vals_size vsizes ws' window' later' s)
  unfolding get MapRead.get
  get-Related packed vals_size vsizes ws ws' u s a r =
      elim (Bool-cases (not (length ksizes == length vsizes))) [
        | inl e ↦
            rw (e, get, MapRead.get)
              (record { ret = refl; slots = refl; vals_size = refl; after = r })
        | inr e ↦
            rw (e, get, MapRead.get)
              (elim (Bool-cases s.has_migrated) [
                | inl m ↦
                    simp (m, r.migrated)
                      (record { ret = refl; slots = refl; vals_size = refl; after = r })
                | inr m ↦ simp (m, r.migrated) (got-Related packed vals_size vsizes ws ws' u s a r)
              ])
      ]

-- An unordered_map database and a map database under a strict total order that hold the same values and
-- have the same threads waiting: on every request, with every flag, and through every wait while the
-- other threads keep the two alike, exists, length, get, erase and put end with the same status or
-- fault, write the same outputs, and leave the two alike again.
pub unordered_refines_map :
    (mode : Mode) (keys : UserMem) (ksizes : List ℕ) (ws : List Wake) (ws' : List MapBackend.Wake)
    (u : UnorderedMapDatabase) (s : MapDatabase)
    → AllRelated ws ws'
    → Related u s
    → ((nflags : ℕ)
        → Same (exists mode keys ksizes nflags ws u) (MapRead.exists mode keys ksizes nflags ws' s))
      × ((nvsizes : ℕ)
          → Same
              (value_length mode keys ksizes nvsizes ws u)
              (MapRead.value_length mode keys ksizes nvsizes ws' s))
      × Same (erase mode keys ksizes ws u) (MapWrite.erase mode keys ksizes ws' s)
      × ((vals : UserMem) (vsizes : List ℕ)
          → SamePut
              (put mode keys ksizes vals vsizes u)
              (MapWrite.put mode keys ksizes vals vsizes s))
      × ((packed : Bool) (vals_size : ℕ) (vsizes : List ℕ) (later : List Wake)
            (later' : List MapBackend.Wake) (window : UnorderedMapDatabase → UnorderedMapDatabase)
            (window' : MapDatabase → MapDatabase)
          → AllRelated later later'
          → ((v : UnorderedMapDatabase) (t : MapDatabase)
              → Related v t
              → Related (window v) (window' t))
          → SameGet
              (get mode packed keys ksizes vals_size vsizes ws window later u)
              (MapRead.get mode packed keys ksizes vals_size vsizes ws' window' later' s))
unordered_refines_map mode keys ksizes ws ws' u s a r = (
  exists-related mode keys ksizes ws ws' u s a r,
  length-related mode keys ksizes ws ws' u s a r,
  erase-related mode keys ksizes ws ws' u s a r,
  put-related mode keys ksizes ws ws' u s a r,
  λ packed vals_size vsizes later later' window window' b keeps.
      get-Related mode keys ksizes later later' b window window' keeps packed vals_size vsizes ws
        ws' u s a r,
)
