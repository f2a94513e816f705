-- ===== src/UnorderedMap/Puts.antt =====
-- put of the unordered_map database beside that of the map database.
use mochi_rkv.Prelude.{
  ℕ, ◌≡◌, refl, ap, Bool, List, [], ◌∷◌, ◌++◌, Option, none, some, arith, if◌then◌else◌,
  Option-cases, inl, inr,
}
use mochi_rkv.Common.{
  Bytes, Mode, UserMem, Status, key_exists, not_found, Ret, returned, fault, slice, add_size,
}
use mochi_rkv.OrderedMap
use mochi_rkv.HashMap
use mochi_rkv.HashMap.Laws.{emplace_there}
use mochi_rkv.MapBackend.{MapDatabase}
use mochi_rkv.MapBackend.Write as MapWrite
use mochi_rkv.MapBackend.Write.{PutStep}
use mochi_rkv.UnorderedMap.{UnorderedMapDatabase}
use mochi_rkv.UnorderedMap.Write.{PutRound, continue, stop, bad_read, put_key, put_loop, notified}
use mochi_rkv.UnorderedMap.Related.{Related, Related-emplaced, Related-modified, Related-notified}

-- Two rounds of put end alike.
abbrev Rounds : PutRound → PutStep → Type 0
Rounds (continue u) (MapWrite.continue s) = Related u s
Rounds (stop st) (MapWrite.stop st') = st ≡ st'
Rounds bad_read MapWrite.bad_read = Unit {0}
Rounds _ _ = ⊥

-- What a round of put does, by the flags and the value that the key has.
data Action : Type 0 where
  skip : Action
  refuse : Status → Action
  unread : Action
  fresh : Bytes → Action
  change : (Bytes → Bytes) → Action

action : Mode → Bool → Option Bytes → Option Bytes → Action
action mode single none none =
    if mode.new_only
    then unread
    else if mode.exist_only
    then if single then refuse not_found else skip
    else unread
action mode single (some v) none =
    if mode.new_only
    then fresh v
    else if mode.exist_only
    then if single then refuse not_found else skip
    else fresh v
action mode single none (some old) =
    if mode.new_only then if single then refuse key_exists else skip else unread
action mode single (some v) (some old) =
    if mode.new_only
    then if single then refuse key_exists else skip
    else if mode.append
    then change (λ w. w ++ v)
    else change (λ w. v)

module _ (mode : Mode) (key : Bytes) (u : UnorderedMapDatabase) (s : MapDatabase) where
  run_table : Action → PutRound
  run_table skip = continue u
  run_table (refuse st) = stop st
  run_table unread = bad_read
  run_table (fresh v) = continue (notified mode key (record u { db = HashMap.emplace key v u.db }))
  run_table (change f) = continue (notified mode key (record u { db = HashMap.modify key f u.db }))

  run_map : Action → PutStep
  run_map skip = MapWrite.continue s
  run_map (refuse st) = MapWrite.stop st
  run_map unread = MapWrite.bad_read
  run_map (fresh v) =
      MapWrite.continue
        (MapWrite.notified mode key (record s { db = OrderedMap.emplace s.cmp key v s.db }))
  run_map (change f) =
      MapWrite.continue
        (MapWrite.notified mode key (record s { db = OrderedMap.modify s.cmp key f s.db }))

  put_table :
      (single : Bool) (val : Option Bytes)
      → put_key mode single key val u ≡ run_table (action mode single val (HashMap.find key u.db))
  unfolding put_key run_table action
  put_table single none = ground arith
  put_table single (some v) = elim (Option-cases (HashMap.find key u.db)) [
    | inl e ↦ ground arith
    | inr (old, e) ↦ ground (arith, emplace_there key v old u.db e)
  ]

  put_map :
      (single : Bool) (val : Option Bytes)
      → MapWrite.put_key mode single key val s
        ≡ run_map (action mode single val (OrderedMap.find s.cmp key s.db))
  unfolding MapWrite.put_key run_map action
  put_map single none = ground arith
  put_map single (some v) = ground arith

  module _ (r : Related u s) where
    run_related : (a : Action) → Rounds (run_table a) (run_map a)
    unfolding run_table run_map
    run_related skip = r
    run_related (refuse st) = refl
    run_related unread = tt
    run_related (fresh v) = Related-notified _ _ (Related-emplaced u s r key v) mode key
    run_related (change f) = Related-notified _ _ (Related-modified u s r key f) mode key

    put_key-related :
        (single : Bool) (val : Option Bytes)
        → Rounds (put_key mode single key val u) (MapWrite.put_key mode single key val s)
    put_key-related single val =
        rw (put_table single val, put_map single val, r.values key)
          (run_related (action mode single val (OrderedMap.find s.cmp key s.db)))

-- The same outcome, and related databases.
abbrev pub SamePut : Ret × UnorderedMapDatabase → Ret × MapDatabase → Type 0
SamePut (r, u) (r', s) = (r ≡ r') × Related u s

round_rule :
    (p : PutRound) (q : PutStep) (u : UnorderedMapDatabase) (s : MapDatabase)
    (next : UnorderedMapDatabase → Ret × UnorderedMapDatabase)
    (next' : MapDatabase → Ret × MapDatabase)
    → Related u s
    → Rounds p q
    → ((u : UnorderedMapDatabase) (s : MapDatabase) → Related u s → SamePut (next u) (next' s))
    → SamePut
        (elim p as (λ x. Ret × UnorderedMapDatabase) [
          | continue u' ↦ next u'
          | stop st ↦ (returned st, u)
          | bad_read ↦ (fault, u)
        ])
        (elim q as (λ x. Ret × MapDatabase) [
          | MapWrite.continue s' ↦ next' s'
          | MapWrite.stop st ↦ (returned st, s)
          | MapWrite.bad_read ↦ (fault, s)
        ])
round_rule (continue u') (MapWrite.continue s') u s next next' r k h = h u' s' k
round_rule (stop st) (MapWrite.stop st') u s next next' r k h = (ap returned k, r)
round_rule bad_read MapWrite.bad_read u s next next' r k h = (refl, r)
round_rule (continue u') (MapWrite.stop st) u s next next' r k h = absurd k
round_rule (continue u') MapWrite.bad_read u s next next' r k h = absurd k
round_rule (stop st) (MapWrite.continue s') u s next next' r k h = absurd k
round_rule (stop st) MapWrite.bad_read u s next next' r k h = absurd k
round_rule bad_read (MapWrite.continue s') u s next next' r k h = absurd k
round_rule bad_read (MapWrite.stop st) u s next next' r k h = absurd k

module _ (mode : Mode) (single : Bool) (keys vals : UserMem) where
  pub put_loop-Related :
      (koff voff : ℕ) (ksizes vsizes : List ℕ) (u : UnorderedMapDatabase) (s : MapDatabase)
      → Related u s
      → SamePut
          (put_loop mode single keys vals koff voff ksizes vsizes u)
          (MapWrite.put_loop mode single keys vals koff voff ksizes vsizes s)
  unfolding put_loop MapWrite.put_loop
  put_loop-Related koff voff [] vsizes u s r = (refl, r)
  put_loop-Related koff voff (n ∷ ksizes) [] u s r = (refl, r)
  put_loop-Related koff voff (n ∷ ksizes) (m ∷ vsizes) u s r =
      elim (Option-cases (slice keys.bytes koff n)) [
        | inl e ↦ rw (e, put_loop, MapWrite.put_loop) (refl, r)
        | inr (key, e) ↦
            let val = slice vals.bytes voff m in
            rw (e, put_loop, MapWrite.put_loop)
              (round_rule (put_key mode single key val u) (MapWrite.put_key mode single key val s) u
                s _ _ r (put_key-related mode key u s r single val)
                (λ u' s' r'.
                  put_loop-Related (add_size koff n) (add_size voff m) ksizes vsizes u' s' r'))
      ]
