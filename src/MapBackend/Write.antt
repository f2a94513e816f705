-- ===== src/MapBackend/Write.antt =====
-- put and erase of src/backends/map.cpp.
use mochi_rkv.Prelude.{
  ℕ, ◌+◌, Bool, not, List, [], ◌∷◌, ◌++◌, length, Option, none, some, ltb, ◌==◌, if◌then◌else◌,
}
use mochi_rkv.Common.{
  Bytes, Status, success, migrated, invalid_arg, key_exists, not_found, Ret, returned, fault, Mode,
  UserMem, size, slice, add_size, notify,
}
use mochi_rkv.OrderedMap
use mochi_rkv.OrderedMap.{find, emplace, modify}
use mochi_rkv.Watcher.{notify_key}
use mochi_rkv.MapBackend.{MapDatabase, Wake, look, after_look}

-- std::accumulate over size_t from 0.
unfoldable pub accumulate : ℕ → List ℕ → ℕ
accumulate acc [] = acc
accumulate acc (n ∷ ns) = accumulate (add_size acc n) ns

-- One round of the loop of `put`: it goes on with a database, ends the call with a status, or reads
-- outside of the values.
pub data PutStep : Type 0 where
  continue : MapDatabase → PutStep
  stop : Status → PutStep
  bad_read : PutStep

-- if(mode_notify) m_watcher.notifyKey(key_umem);
abbrev pub notified : Mode → Bytes → MapDatabase → MapDatabase
notified mode key s = if notify mode then record s { watcher = notify_key key s.watcher } else s

abbrev assigned : Bytes → Bytes → MapDatabase → MapDatabase
assigned key val s = record s { db = modify s.cmp key (λ old. val) s.db }

abbrev appended : Bytes → Bytes → MapDatabase → MapDatabase
appended key val s = record s { db = modify s.cmp key (λ old. old ++ val) s.db }

abbrev emplaced : Bytes → Bytes → MapDatabase → MapDatabase
emplaced key val s = record s { db = emplace s.cmp key val s.db }

-- Each branch reads the value only where it stores it.
abbrev with_value : Option Bytes → (Bytes → PutStep) → PutStep
with_value none f = bad_read
with_value (some v) f = f v

put_new_only : Mode → Bool → Bytes → Option Bytes → MapDatabase → PutStep
put_new_only mode single key val s = elim (find s.cmp key s.db) [
  | none ↦ with_value val (λ v. continue (notified mode key (emplaced key v s)))
  | some old ↦ if single then stop key_exists else continue s
]

put_exist_only : Mode → Bool → Bytes → Option Bytes → MapDatabase → PutStep
put_exist_only mode single key val s = elim (find s.cmp key s.db) [
  | some old ↦
      with_value val λ v.
        continue (notified mode key (if mode.append then appended key v s else assigned key v s))
  | none ↦ if single then stop not_found else continue s
]

put_append : Mode → Bytes → Option Bytes → MapDatabase → PutStep
put_append mode key val s = with_value val λ v. elim (find s.cmp key s.db) [
  | some old ↦ continue (notified mode key (appended key v s))
  | none ↦ continue (notified mode key (emplaced key v s))
]

put_normal : Mode → Bytes → Option Bytes → MapDatabase → PutStep
put_normal mode key val s = with_value val λ v. elim (find s.cmp key s.db) [
  | none ↦ continue (notified mode key (emplaced key v s))
  | some old ↦ continue (notified mode key (assigned key v s))
]

-- `single` is ksizes.size == 1.
unfoldable pub put_key : Mode → Bool → Bytes → Option Bytes → MapDatabase → PutStep
unfolding put_new_only put_exist_only put_append put_normal
put_key mode single key val s =
    if mode.new_only
    then put_new_only mode single key val s
    else if mode.exist_only
    then put_exist_only mode single key val s
    else if mode.append
    then put_append mode key val s
    else put_normal mode key val s

module _ (mode : Mode) (single : Bool) (keys vals : UserMem) where
  unfoldable pub put_loop : ℕ → ℕ → List ℕ → List ℕ → MapDatabase → Ret × MapDatabase
  put_loop koff voff (n ∷ ksizes) (m ∷ vsizes) s =
      let rest = put_loop (add_size koff n) (add_size voff m) ksizes vsizes in
      elim (slice keys.bytes koff n) [
        | none ↦ (fault, s)
        | some key ↦ elim (put_key mode single key (slice vals.bytes voff m) s) [
          | continue s' ↦ rest s'
          | stop st ↦ (returned st, s)
          | bad_read ↦ (fault, s)
        ]
      ]
  put_loop koff voff _ _ s = (returned success, s)

unfoldable pub put : Mode → UserMem → List ℕ → UserMem → List ℕ → MapDatabase → Ret × MapDatabase
unfolding accumulate put_loop
put mode keys ksizes vals vsizes s =
    if not (length ksizes == length vsizes)
    then (returned invalid_arg, s)
    else if ltb (size keys) (accumulate 0 ksizes)
    then (returned invalid_arg, s)
    else if ltb (size vals) (accumulate 0 vsizes)
    then (returned invalid_arg, s)
    else if s.has_migrated
    then (returned migrated, s)
    else put_loop mode (length ksizes == 1) keys vals 0 0 ksizes vsizes s

abbrev pub erased : Bytes → Option Bytes → MapDatabase → MapDatabase
erased key none s = s
erased key (some v) s = record s { db = OrderedMap.erase s.cmp key s.db }

module _ (mode : Mode) (keys : UserMem) where
  unfoldable pub erase_loop : ℕ → List ℕ → List Wake → MapDatabase → Ret × Unit {0} × MapDatabase
  erase_loop offset [] ws s = (returned success, tt, s)
  erase_loop offset (n ∷ ksizes) ws s =
      let rest = erase_loop (add_size offset n) ksizes in
      if ltb (size keys) (add_size offset n)
      then (returned invalid_arg, tt, s)
      else elim (slice keys.bytes offset n) [
        | none ↦ (fault, tt, s)
        | some key ↦
            after_look (look mode.wait (keys.addr + offset) key ws s) tt
              λ found ws' s'. rest ws' (erased key found s')
      ]

unfoldable pub erase :
    Mode → UserMem → List ℕ → List Wake → MapDatabase → Ret × Unit {0} × MapDatabase
unfolding erase_loop
erase mode keys ksizes ws s =
    if s.has_migrated then (returned migrated, tt, s) else erase_loop mode keys 0 ksizes ws s
