-- ===== src/SetBackend/Write.antt =====
-- put and erase of src/backends/set.cpp.
use mochi_rkv.Prelude.{
  ℕ, ◌+◌, Bool, true, false, not, List, [], ◌∷◌, length, Option, none, some, ltb, ◌==◌,
  if◌then◌else◌,
}
use mochi_rkv.Common.{
  Bytes, success, migrated, invalid_arg, key_exists, not_found, Ret, returned, fault, Mode, UserMem,
  size, slice, add_size, notify,
}
use mochi_rkv.OrderedSet
use mochi_rkv.OrderedSet.{contains, emplace}
use mochi_rkv.Watcher.{Watcher, notify_key}
use mochi_rkv.MapBackend.Write.{accumulate}
use mochi_rkv.SetBackend.{SetDatabase, Wake, look, after_look}

-- m_watcher.notifyKey({ keys.data + offset, n }): the bytes are compared with the keys that threads
-- wait for, if there are any. none is a read outside of the buffer.
unfoldable pub notified : UserMem → ℕ → ℕ → Watcher → Option Watcher
notified keys offset n [] = some []
notified keys offset n (e ∷ w) = elim (slice keys.bytes offset n) [
  | none ↦ none
  | some key ↦ some (notify_key key (e ∷ w))
]

-- The loop of put: it notifies behind `key_offset += ksizes[i]`.
module _ (mode : Mode) (keys : UserMem) where
  unfoldable pub put_loop : ℕ → List ℕ → SetDatabase → Ret × SetDatabase
  unfolding notified
  put_loop koff [] s = (returned success, s)
  put_loop koff (n ∷ ksizes) s =
      let rest = put_loop (add_size koff n) ksizes in
      elim (slice keys.bytes koff n) [
        | none ↦ (fault, s)
        | some key ↦
            let s' = record s { db = emplace s.cmp key s.db } in
            if notify mode
            then elim (notified keys (add_size koff n) n s.watcher) [
              | none ↦ (fault, s')
              | some w ↦ rest (record s' { watcher = w })
            ]
            else rest s'
      ]

-- Whether the one key of a request is there; none is a read outside of the buffer.
abbrev pub holds_first : UserMem → ℕ → SetDatabase → Option Bool
holds_first keys n s = elim (slice keys.bytes 0 n) [
  | none ↦ none
  | some key ↦ some (contains s.cmp key s.db)
]

-- if(mode_exist_only) …: a put of one key says whether it is there, a put of others does nothing.
unfoldable pub put_exist_only : UserMem → List ℕ → SetDatabase → Ret × SetDatabase
put_exist_only keys (n ∷ []) s = elim (holds_first keys n s) [
  | none ↦ (fault, s)
  | some found ↦ (returned (if found then success else not_found), s)
]
put_exist_only keys _ s = (returned success, s)

-- if(mode_new_only) …: with one key that is there, the call ends.
unfoldable pub put_new_only : Mode → UserMem → List ℕ → SetDatabase → Ret × SetDatabase
unfolding put_loop
put_new_only mode keys (n ∷ []) s = elim (holds_first keys n s) [
  | none ↦ (fault, s)
  | some found ↦ if found then (returned key_exists, s) else put_loop mode keys 0 (n ∷ []) s
]
put_new_only mode keys ksizes s = put_loop mode keys 0 ksizes s

unfoldable pub put : Mode → UserMem → List ℕ → UserMem → List ℕ → SetDatabase → Ret × SetDatabase
unfolding accumulate put_loop put_exist_only put_new_only
put mode keys ksizes vals vsizes s =
    if s.has_migrated
    then (returned migrated, s)
    else if not (length ksizes == length vsizes)
    then (returned invalid_arg, s)
    else if not (size vals == 0)
    then (returned invalid_arg, s)
    else if ltb (size keys) (accumulate 0 ksizes)
    then (returned invalid_arg, s)
    else if not (accumulate 0 vsizes == 0)
    then (returned invalid_arg, s)
    else if mode.exist_only
    then put_exist_only keys ksizes s
    else if mode.new_only
    then put_new_only mode keys ksizes s
    else put_loop mode keys 0 ksizes s

abbrev pub erased : Bytes → Bool → SetDatabase → SetDatabase
erased key false s = s
erased key true s = record s { db = OrderedSet.erase s.cmp key s.db }

module _ (mode : Mode) (keys : UserMem) where
  unfoldable pub erase_loop : ℕ → List ℕ → List Wake → SetDatabase → Ret × Unit {0} × SetDatabase
  erase_loop offset [] ws s = (returned success, tt, s)
  erase_loop offset (n ∷ ksizes) ws s =
      let rest = erase_loop (add_size offset n) ksizes in
      if ltb (size keys) (add_size offset n)
      then (returned invalid_arg, tt, s)
      else elim (slice keys.bytes offset n) [
        | none ↦ (fault, tt, s)
        | some key ↦
            after_look (look mode.wait (keys.addr + offset) key ws s) tt
              λ found ws' s'. rest ws' (erased key found s')
      ]

unfoldable pub erase :
    Mode → UserMem → List ℕ → List Wake → SetDatabase → Ret × Unit {0} × SetDatabase
unfolding erase_loop
erase mode keys ksizes ws s =
    if s.has_migrated then (returned migrated, tt, s) else erase_loop mode keys 0 ksizes ws s
