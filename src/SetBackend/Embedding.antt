-- ===== src/SetBackend/Embedding.antt =====
-- The set database answers as the map database with empty values does: lookups, exists, length, erase.
use mochi_rkv.Prelude.{
  ℕ, suc, ◌+◌, ◌≡◌, refl, ap, Bool, true, false, List, [], ◌∷◌, length, Option, none, some, arith,
  ltb, Bool-cases, Option-cases, inl, inr,
}
use mochi_rkv.Common.{Bytes, Mode, UserMem, Ret, size, slice, add_size}
use mochi_rkv.OrderedMap
use mochi_rkv.OrderedSet.{contains, emplace, erase, lower_bound, upper_bound, with_empty}
use mochi_rkv.MapBackend
use mochi_rkv.MapBackend.{MapDatabase, Looked, hit, miss, is_present}
use mochi_rkv.MapBackend.Read as MapRead
use mochi_rkv.MapBackend.Write as MapWrite
use mochi_rkv.SetBackend.{
  SetDatabase, Wake, Sought, answer, gave_up, waiting, look, after_look, as_map, count,
}
use mochi_rkv.SetBackend.Read.{each_key, exists, value_length, empty_size, found_itself}
use mochi_rkv.SetBackend.Write.{erase_loop, erased}
use mochi_rkv.SetBackend.Write as SetWrite

abbrev pub empty_value : Bool → Option Bytes
empty_value true = some []
empty_value false = none

module _ (cmp : Bytes → Bytes → Bool) where
  pub find-with_empty :
      (k : Bytes) (l : List Bytes)
      → OrderedMap.find cmp k (with_empty l) ≡ empty_value (contains cmp k l)
  unfolding OrderedMap.find contains
  find-with_empty k [] = refl
  find-with_empty k (j ∷ l) = ground (arith, find-with_empty k l)

  pub emplace-with_empty :
      (k : Bytes) (l : List Bytes)
      → OrderedMap.emplace cmp k [] (with_empty l) ≡ with_empty (emplace cmp k l)
  unfolding OrderedMap.emplace emplace
  emplace-with_empty k [] = refl
  emplace-with_empty k (j ∷ l) = ground (arith, emplace-with_empty k l)

  pub erase-with_empty :
      (k : Bytes) (l : List Bytes)
      → OrderedMap.erase cmp k (with_empty l) ≡ with_empty (erase cmp k l)
  unfolding OrderedMap.erase erase
  erase-with_empty k [] = refl
  erase-with_empty k (j ∷ l) = ground (arith, erase-with_empty k l)

  pub lower_bound-with_empty :
      (k : Bytes) (l : List Bytes)
      → OrderedMap.lower_bound cmp k (with_empty l) ≡ with_empty (lower_bound cmp k l)
  unfolding OrderedMap.lower_bound lower_bound
  lower_bound-with_empty k [] = refl
  lower_bound-with_empty k (j ∷ l) = ground (arith, lower_bound-with_empty k l)

  pub upper_bound-with_empty :
      (k : Bytes) (l : List Bytes)
      → OrderedMap.upper_bound cmp k (with_empty l) ≡ with_empty (upper_bound cmp k l)
  unfolding OrderedMap.upper_bound upper_bound
  upper_bound-with_empty k [] = refl
  upper_bound-with_empty k (j ∷ l) = ground (arith, upper_bound-with_empty k l)

pub length-with_empty : (l : List Bytes) → length (with_empty l) ≡ length l
length-with_empty [] = refl
length-with_empty (k ∷ l) = ap suc (length-with_empty l)

-- What the other threads do, for the map database.
abbrev pub map_wakes : List Wake → List MapBackend.Wake
map_wakes [] = []
map_wakes ((st, s) ∷ ws) = (st, as_map s) ∷ map_wakes ws

abbrev looked : Sought → Looked
looked (answer true) = hit []
looked (answer false) = miss
looked gave_up = Looked.gave_up
looked waiting = Looked.waiting

abbrev seen : Sought × SetDatabase × List Wake → Looked × MapDatabase × List MapBackend.Wake
seen (l, s, ws) = (looked l, as_map s, map_wakes ws)

-- A result over the map database.
abbrev pub on_map {ℓ} : {O : Type ℓ} → Ret × O × SetDatabase → Ret × O × MapDatabase
on_map (r, o, s) = (r, o, as_map s)

look-as_map :
    (wait : Bool) (addr : ℕ) (key : Bytes) (ws : List Wake) (s : SetDatabase)
    → MapBackend.look wait addr key (map_wakes ws) (as_map s) ≡ seen (look wait addr key ws s)
unfolding MapBackend.look look
look-as_map wait addr key [] s = ground (arith, find-with_empty s.cmp key s.db)
look-as_map wait addr key ((st, s') ∷ ws) s =
    ground (arith, find-with_empty s.cmp key s.db, look-as_map wait addr key ws s')

module _ {ℓ} {O : Type ℓ} (o : O) (next : Bool → List Wake → SetDatabase → Ret × O × SetDatabase)
    (next' : Option Bytes → List MapBackend.Wake → MapDatabase → Ret × O × MapDatabase)
    (same : (found : Bool) (ws : List Wake) (s : SetDatabase)
      → next' (empty_value found) (map_wakes ws) (as_map s) ≡ on_map (next found ws s)) where
  after_seen :
      (l : Sought × SetDatabase × List Wake)
      → MapBackend.after_look (seen l) o next' ≡ on_map (after_look l o next)
  unfolding MapBackend.after_look after_look
  after_seen (answer true, s, ws) = same true ws s
  after_seen (answer false, s, ws) = same false ws s
  after_seen (gave_up, s, ws) = refl
  after_seen (waiting, s, ws) = refl

  pub after_look-as_map :
      (wait : Bool) (addr : ℕ) (key : Bytes) (ws : List Wake) (s : SetDatabase)
      → MapBackend.after_look (MapBackend.look wait addr key (map_wakes ws) (as_map s)) o next'
        ≡ on_map (after_look (look wait addr key ws s) o next)
  after_look-as_map wait addr key ws s =
      rw (look-as_map wait addr key ws s) (after_seen (look wait addr key ws s))

module _ {ℓ} {O : Type ℓ} (mode : Mode) (keys : UserMem) (out : Bool → O) (out' : Option Bytes → O)
    (same : (found : Bool) → out' (empty_value found) ≡ out found) where
  each_key-as_map :
      (offset : ℕ) (ksizes : List ℕ) (ws : List Wake) (s : SetDatabase)
      → MapRead.each_key mode keys out' offset ksizes (map_wakes ws) (as_map s)
        ≡ on_map (each_key mode keys out offset ksizes ws s)
  unfolding MapRead.each_key each_key
  each_key-as_map offset [] ws s = refl
  each_key-as_map offset (n ∷ ksizes) ws s =
      elim (Bool-cases (ltb (size keys) (add_size offset n))) [
        | inl e ↦ rw (e, MapRead.each_key, each_key) refl
        | inr e ↦
            rw (e, MapRead.each_key, each_key)
              (elim (Option-cases (slice keys.bytes offset n)) [
                | inl f ↦ rw (f, MapRead.each_key, each_key) refl
                | inr (key, f) ↦
                    rw (f, MapRead.each_key, each_key)
                      (after_look-as_map [] _ _
                        (λ found ws' s'. rw (same found) (
                          ap (MapRead.push (out found))
                            (each_key-as_map (add_size offset n) ksizes ws' s')))
                        mode.wait (keys.addr + offset) key ws s)
              ])
      ]

module _ (mode : Mode) (keys : UserMem) where
  erased-as_map :
      (key : Bytes) (found : Bool) (s : SetDatabase)
      → MapWrite.erased key (empty_value found) (as_map s) ≡ as_map (erased key found s)
  erased-as_map key true s =
      ap (λ m. record (as_map s) { db = m }) (erase-with_empty s.cmp key s.db)
  erased-as_map key false s = refl

  erase_loop-as_map :
      (offset : ℕ) (ksizes : List ℕ) (ws : List Wake) (s : SetDatabase)
      → MapWrite.erase_loop mode keys offset ksizes (map_wakes ws) (as_map s)
        ≡ on_map (erase_loop mode keys offset ksizes ws s)
  unfolding MapWrite.erase_loop erase_loop
  erase_loop-as_map offset [] ws s = refl
  erase_loop-as_map offset (n ∷ ksizes) ws s =
      elim (Bool-cases (ltb (size keys) (add_size offset n))) [
        | inl e ↦ rw (e, MapWrite.erase_loop, erase_loop) refl
        | inr e ↦
            rw (e, MapWrite.erase_loop, erase_loop)
              (elim (Option-cases (slice keys.bytes offset n)) [
                | inl f ↦ rw (f, MapWrite.erase_loop, erase_loop) refl
                | inr (key, f) ↦
                    rw (f, MapWrite.erase_loop, erase_loop)
                      (after_look-as_map tt _ _
                        (λ found ws' s'.
                          rw (erased-as_map key found s') (
                            erase_loop-as_map (add_size offset n) ksizes ws' (erased key found s')))
                        mode.wait (keys.addr + offset) key ws s)
              ])
      ]

flags : (found : Bool) → MapRead.is_some (empty_value found) ≡ found_itself found
flags true = refl
flags false = refl

sizes : (found : Bool) → MapRead.value_size (empty_value found) ≡ empty_size found
sizes true = refl
sizes false = refl

module _ (mode : Mode) (keys : UserMem) (ksizes : List ℕ) (ws : List Wake) (s : SetDatabase) where
  pub exists-as_map :
      (nflags : ℕ)
      → MapRead.exists mode keys ksizes nflags (map_wakes ws) (as_map s)
        ≡ on_map (exists mode keys ksizes nflags ws s)
  unfolding MapRead.exists exists
  exists-as_map nflags =
      ground (arith, each_key-as_map mode keys found_itself MapRead.is_some flags 0 ksizes ws s)

  pub length-as_map :
      (nvsizes : ℕ)
      → MapRead.value_length mode keys ksizes nvsizes (map_wakes ws) (as_map s)
        ≡ on_map (value_length mode keys ksizes nvsizes ws s)
  unfolding MapRead.value_length value_length
  length-as_map nvsizes =
      ground (arith, each_key-as_map mode keys empty_size MapRead.value_size sizes 0 ksizes ws s)

  pub erase-as_map :
      MapWrite.erase mode keys ksizes (map_wakes ws) (as_map s)
      ≡ on_map (SetWrite.erase mode keys ksizes ws s)
  unfolding MapWrite.erase SetWrite.erase
  erase-as_map = ground (arith, erase_loop-as_map mode keys 0 ksizes ws s)

pub count-as_map : (s : SetDatabase) → MapBackend.count (as_map s) ≡ count s
unfolding MapBackend.count count
count-as_map s = ground (arith, length-with_empty s.db)
