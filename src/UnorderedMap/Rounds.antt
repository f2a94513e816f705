-- ===== src/UnorderedMap/Rounds.antt =====
-- The loops over keys of the unordered_map database beside those of the map database.
use mochi_rkv.Prelude.{
  ℕ, ◌+◌, ◌≡◌, refl, ap, ◌∙◌, Bool, true, false, List, [], ◌∷◌, Option, none, some, ltb,
  if◌then◌else◌, Bool-cases, Option-cases, inl, inr,
}
use mathlib.Core.Path.{subst}
use mochi_rkv.Common.{Bytes, Mode, UserMem, Ret, size, slice, add_size}
use mochi_rkv.OrderedMap
use mochi_rkv.MapBackend
use mochi_rkv.MapBackend.{MapDatabase, Looked, hit, miss, gave_up, waiting, is_present, after_look}
use mochi_rkv.MapBackend.Read as MapRead
use mochi_rkv.MapBackend.Read.{push, packed_round, push_packed, Slot, got}
use mochi_rkv.MapBackend.Write as MapWrite
use mochi_rkv.UnorderedMap.{UnorderedMapDatabase, Wake, look}
use mochi_rkv.UnorderedMap.Read.{each_key, get_each}
use mochi_rkv.UnorderedMap.Write.{erase_loop, erased}
use mochi_rkv.UnorderedMap.Related.{Related, AllRelated, Same, Related-added, Related-erased}

-- The outcomes of two lookups.
abbrev Looks :
    Looked × UnorderedMapDatabase × List Wake → Looked × MapDatabase × List MapBackend.Wake → Type 0
Looks (k, u, ws) (k', s, ws') = (k ≡ k') × Related u s × AllRelated ws ws'

retried :
    (present : Bool) (l : Looked × UnorderedMapDatabase × List Wake)
    (l' : Looked × MapDatabase × List MapBackend.Wake) {u : UnorderedMapDatabase} {s : MapDatabase}
    (ws : List Wake) (ws' : List MapBackend.Wake)
    → Looks l l'
    → Related u s
    → AllRelated ws ws'
    → Looks (if present then l else (gave_up, u, ws)) (if present then l' else (gave_up, s, ws'))
retried true l l' ws ws' h r a = h
retried false l l' ws ws' h r a = (refl, r, a)

look-Related :
    (wait : Bool) (addr : ℕ) (key : Bytes) (ws : List Wake) (ws' : List MapBackend.Wake)
    (u : UnorderedMapDatabase) (s : MapDatabase)
    → AllRelated ws ws'
    → Related u s
    → Looks (look wait addr key ws u) (MapBackend.look wait addr key ws' s)
unfolding look MapBackend.look
look-Related wait addr key [] (w ∷ ws') u s a r = absurd a
look-Related wait addr key (w ∷ ws) [] u s a r = absurd a
look-Related true addr key [] [] u s a r = elim (Option-cases (OrderedMap.find s.cmp key s.db)) [
  | inl e ↦
      rw (r.values key ∙ e, look) (rw (e, MapBackend.look) (refl, Related-added u s r addr key, tt))
  | inr (v, e) ↦ rw (r.values key ∙ e, look) (rw (e, MapBackend.look) (refl, r, tt))
]
look-Related false addr key [] [] u s a r = elim (Option-cases (OrderedMap.find s.cmp key s.db)) [
  | inl e ↦ rw (r.values key ∙ e, look) (rw (e, MapBackend.look) (refl, r, tt))
  | inr (v, e) ↦ rw (r.values key ∙ e, look) (rw (e, MapBackend.look) (refl, r, tt))
]
look-Related false addr key ((st, u') ∷ ws) ((st', s') ∷ ws') u s a r =
    elim (Option-cases (OrderedMap.find s.cmp key s.db)) [
      | inl e ↦ rw (r.values key ∙ e, look) (rw (e, MapBackend.look) (refl, r, a))
      | inr (v, e) ↦ rw (r.values key ∙ e, look) (rw (e, MapBackend.look) (refl, r, a))
    ]
look-Related true addr key ((st, u') ∷ ws) ((st', s') ∷ ws') u s a r =
    elim (Option-cases (OrderedMap.find s.cmp key s.db)) [
      | inl e ↦
          rw (r.values key ∙ e, look)
            (rw (e, MapBackend.look)
              (rw a.0 (
                retried (is_present st') _ _ ws ws'
                  (look-Related true addr key ws ws' u' s' a.2 a.1) a.1 a.2)))
      | inr (v, e) ↦ rw (r.values key ∙ e, look) (rw (e, MapBackend.look) (refl, r, a))
    ]

module _ {ℓ} {O : Type ℓ} (o : O)
    (next : Option Bytes → List Wake → UnorderedMapDatabase → Ret × O × UnorderedMapDatabase)
    (next' : Option Bytes → List MapBackend.Wake → MapDatabase → Ret × O × MapDatabase)
    (same : (found : Option Bytes) (ws : List Wake) (ws' : List MapBackend.Wake)
        (u : UnorderedMapDatabase) (s : MapDatabase)
      → AllRelated ws ws'
      → Related u s
      → Same (next found ws u) (next' found ws' s)) where
  after_same :
      (k : Looked) (ws : List Wake) (ws' : List MapBackend.Wake) (u : UnorderedMapDatabase)
      (s : MapDatabase)
      → AllRelated ws ws'
      → Related u s
      → Same (after_look (k, u, ws) o next) (after_look (k, s, ws') o next')
  unfolding after_look
  after_same (hit v) ws ws' u s a r = same (some v) ws ws' u s a r
  after_same miss ws ws' u s a r = same none ws ws' u s a r
  after_same gave_up ws ws' u s a r = (refl, refl, r)
  after_same waiting ws ws' u s a r = (refl, refl, r)

  pub after_look-related :
      (wait : Bool) (addr : ℕ) (key : Bytes) (ws : List Wake) (ws' : List MapBackend.Wake)
      (u : UnorderedMapDatabase) (s : MapDatabase)
      → AllRelated ws ws'
      → Related u s
      → Same
          (after_look (look wait addr key ws u) o next)
          (after_look (MapBackend.look wait addr key ws' s) o next')
  after_look-related wait addr key ws ws' u s a r =
      let l = look wait addr key ws u in
      let l' = MapBackend.look wait addr key ws' s in
      let found = look-Related wait addr key ws ws' u s a r in
      subst (λ k. Same (after_look l o next) (after_look (k, l'.1, l'.2) o next')) found.0
        (after_same l.0 l.2 l'.2 l.1 l'.1 found.2 found.1)

module _ {ℓ} {O : Type ℓ} (mode : Mode) (keys : UserMem) (out : Option Bytes → O) where
  pub each_key-related :
      (offset : ℕ) (ksizes : List ℕ) (ws : List Wake) (ws' : List MapBackend.Wake)
      (u : UnorderedMapDatabase) (s : MapDatabase)
      → AllRelated ws ws'
      → Related u s
      → Same
          (each_key mode keys out offset ksizes ws u)
          (MapRead.each_key mode keys out offset ksizes ws' s)
  unfolding each_key MapRead.each_key
  each_key-related offset [] ws ws' u s a r = (refl, refl, r)
  each_key-related offset (n ∷ ksizes) ws ws' u s a r =
      elim (Bool-cases (ltb (size keys) (add_size offset n))) [
        | inl e ↦ rw (e, each_key, MapRead.each_key) (refl, refl, r)
        | inr e ↦
            rw (e, each_key, MapRead.each_key)
              (elim (Option-cases (slice keys.bytes offset n)) [
                | inl f ↦ rw (f, each_key, MapRead.each_key) (refl, refl, r)
                | inr (key, f) ↦
                    rw (f, each_key, MapRead.each_key)
                      (after_look-related [] _ _
                        (λ found ws ws' u s a r.
                          (let ih = each_key-related (add_size offset n) ksizes ws ws' u s a r in
                            (ih.0, ap (◌∷◌ (out found)) ih.1, ih.2)))
                        mode.wait (keys.addr + offset) key ws ws' u s a r)
              ])
      ]

module _ (mode : Mode) (keys : UserMem) where
  pub erase_loop-related :
      (offset : ℕ) (ksizes : List ℕ) (ws : List Wake) (ws' : List MapBackend.Wake)
      (u : UnorderedMapDatabase) (s : MapDatabase)
      → AllRelated ws ws'
      → Related u s
      → Same
          (erase_loop mode keys offset ksizes ws u)
          (MapWrite.erase_loop mode keys offset ksizes ws' s)
  unfolding erase_loop MapWrite.erase_loop
  erase_loop-related offset [] ws ws' u s a r = (refl, refl, r)
  erase_loop-related offset (n ∷ ksizes) ws ws' u s a r =
      elim (Bool-cases (ltb (size keys) (add_size offset n))) [
        | inl e ↦ rw (e, erase_loop, MapWrite.erase_loop) (refl, refl, r)
        | inr e ↦
            rw (e, erase_loop, MapWrite.erase_loop)
              (elim (Option-cases (slice keys.bytes offset n)) [
                | inl f ↦ rw (f, erase_loop, MapWrite.erase_loop) (refl, refl, r)
                | inr (key, f) ↦
                    rw (f, erase_loop, MapWrite.erase_loop)
                      (after_look-related tt _ _
                        (λ found ws ws' u s a r.
                          erase_loop-related (add_size offset n) ksizes ws ws' (erased key found u)
                            (MapWrite.erased key found s) a (Related-erased u s r key found))
                        mode.wait (keys.addr + offset) key ws ws' u s a r)
              ])
      ]

  pub get_each-related :
      (koff voff : ℕ) (ksizes vsizes : List ℕ) (ws : List Wake) (ws' : List MapBackend.Wake)
      (u : UnorderedMapDatabase) (s : MapDatabase)
      → AllRelated ws ws'
      → Related u s
      → Same
          (get_each mode keys koff voff ksizes vsizes ws u)
          (MapRead.get_each mode keys koff voff ksizes vsizes ws' s)
  unfolding get_each MapRead.get_each
  get_each-related koff voff [] vsizes ws ws' u s a r = (refl, refl, r)
  get_each-related koff voff (n ∷ ksizes) [] ws ws' u s a r = (refl, refl, r)
  get_each-related koff voff (n ∷ ksizes) (room ∷ vsizes) ws ws' u s a r =
      elim (Option-cases (slice keys.bytes koff n)) [
        | inl f ↦ rw (f, get_each, MapRead.get_each) (refl, refl, r)
        | inr (key, f) ↦
            rw (f, get_each, MapRead.get_each)
              (after_look-related [] _ _
                (λ found ws ws' u s a r.
                  (let ih =
                      get_each-related (add_size koff n) (add_size voff room) ksizes vsizes ws ws' u
                        s a r in
                    (ih.0, ap (◌∷◌ (got voff room found)) ih.1, ih.2)))
                mode.wait (keys.addr + koff) key ws ws' u s a r)
      ]
