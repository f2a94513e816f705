-- ===== src/UnorderedMap/Write.antt =====
-- put and erase of src/backends/unordered_map.cpp.
use mochi_rkv.Prelude.{
  ℕ, ◌+◌, Bool, not, List, [], ◌∷◌, ◌++◌, length, Option, none, some, ltb, ◌==◌, if◌then◌else◌,
}
use mochi_rkv.Common.{
  Bytes, Status, success, migrated, invalid_arg, key_exists, not_found, Ret, returned, fault, Mode,
  UserMem, size, slice, add_size, notify,
}
use mochi_rkv.HashMap
use mochi_rkv.HashMap.{find, emplace, modify}
use mochi_rkv.Watcher.{notify_key}
use mochi_rkv.MapBackend.{after_look}
use mochi_rkv.MapBackend.Write.{accumulate}
use mochi_rkv.UnorderedMap.{UnorderedMapDatabase, Wake, look}

-- One round of the loop of `put`: it goes on with a database, ends the call with a status, or reads
-- outside of the values.
pub data PutRound : Type 0 where
  continue : UnorderedMapDatabase → PutRound
  stop : Status → PutRound
  bad_read : PutRound

-- if(mode_notify) m_watcher.notifyKey({keys.data + key_offset, ksizes[i]});
abbrev pub notified : Mode → Bytes → UnorderedMapDatabase → UnorderedMapDatabase
notified mode key s = if notify mode then record s { watcher = notify_key key s.watcher } else s

abbrev emplaced : Bytes → Bytes → UnorderedMapDatabase → UnorderedMapDatabase
emplaced key val s = record s { db = emplace key val s.db }

abbrev assigned : Bytes → Bytes → UnorderedMapDatabase → UnorderedMapDatabase
assigned key val s = record s { db = modify key (λ old. val) s.db }

abbrev appended : Bytes → Bytes → UnorderedMapDatabase → UnorderedMapDatabase
appended key val s = record s { db = modify key (λ old. old ++ val) s.db }

-- Each branch reads the value only where it stores it.
abbrev with_value : Option Bytes → (Bytes → PutRound) → PutRound
with_value none f = bad_read
with_value (some v) f = f v

-- The branches of the loop of `put`; `single` is ksizes.size == 1. In the normal mode emplace says
-- whether the entry was new, and assign follows where it was not.
unfoldable pub put_key : Mode → Bool → Bytes → Option Bytes → UnorderedMapDatabase → PutRound
put_key mode single key val s =
    if mode.new_only
    then elim (find key s.db) [
      | none ↦ with_value val (λ v. continue (notified mode key (emplaced key v s)))
      | some old ↦ if single then stop key_exists else continue s
    ]
    else if mode.exist_only
    then elim (find key s.db) [
      | some old ↦ with_value val λ v.
          continue (notified mode key (if mode.append then appended key v s else assigned key v s))
      | none ↦ if single then stop not_found else continue s
    ]
    else if mode.append
    then with_value val (λ v. elim (find key s.db) [
      | some old ↦ continue (notified mode key (appended key v s))
      | none ↦ continue (notified mode key (emplaced key v s))
    ])
    else with_value val (λ v. elim (find key s.db) [
      | none ↦ continue (notified mode key (emplaced key v s))
      | some old ↦ continue (notified mode key (assigned key v (emplaced key v s)))
    ])

module _ (mode : Mode) (single : Bool) (keys vals : UserMem) where
  unfoldable pub put_loop :
      ℕ → ℕ → List ℕ → List ℕ → UnorderedMapDatabase → Ret × UnorderedMapDatabase
  put_loop koff voff (n ∷ ksizes) (m ∷ vsizes) s =
      let rest = put_loop (add_size koff n) (add_size voff m) ksizes vsizes in
      elim (slice keys.bytes koff n) [
        | none ↦ (fault, s)
        | some key ↦ elim (put_key mode single key (slice vals.bytes voff m) s) [
          | continue s' ↦ rest s'
          | stop st ↦ (returned st, s)
          | bad_read ↦ (fault, s)
        ]
      ]
  put_loop koff voff _ _ s = (returned success, s)

unfoldable pub put :
    Mode → UserMem → List ℕ → UserMem → List ℕ → UnorderedMapDatabase → Ret × UnorderedMapDatabase
unfolding accumulate put_loop
put mode keys ksizes vals vsizes s =
    if not (length ksizes == length vsizes)
    then (returned invalid_arg, s)
    else if ltb (size keys) (accumulate 0 ksizes)
    then (returned invalid_arg, s)
    else if ltb (size vals) (accumulate 0 vsizes)
    then (returned invalid_arg, s)
    else if s.has_migrated
    then (returned migrated, s)
    else put_loop mode (length ksizes == 1) keys vals 0 0 ksizes vsizes s

abbrev pub erased : Bytes → Option Bytes → UnorderedMapDatabase → UnorderedMapDatabase
erased key none s = s
erased key (some v) s = record s { db = HashMap.erase key s.db }

module _ (mode : Mode) (keys : UserMem) where
  unfoldable pub erase_loop :
      ℕ → List ℕ → List Wake → UnorderedMapDatabase → Ret × Unit {0} × UnorderedMapDatabase
  erase_loop offset [] ws s = (returned success, tt, s)
  erase_loop offset (n ∷ ksizes) ws s =
      let rest = erase_loop (add_size offset n) ksizes in
      if ltb (size keys) (add_size offset n)
      then (returned invalid_arg, tt, s)
      else elim (slice keys.bytes offset n) [
        | none ↦ (fault, tt, s)
        | some key ↦
            after_look (look mode.wait (keys.addr + offset) key ws s) tt
              λ found ws' s'. rest ws' (erased key found s')
      ]

unfoldable pub erase :
    Mode
    → UserMem
    → List ℕ
    → List Wake
    → UnorderedMapDatabase
    → Ret × Unit {0} × UnorderedMapDatabase
unfolding erase_loop
erase mode keys ksizes ws s =
    if s.has_migrated then (returned migrated, tt, s) else erase_loop mode keys 0 ksizes ws s
