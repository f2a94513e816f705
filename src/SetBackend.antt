-- ===== src/SetBackend.antt =====
-- src/backends/set.cpp: the database over a std::set, which holds keys without values. The state, the
-- lookups that may wait, and the operations that take no list of keys.
pub mod Read
pub mod Write
pub mod Listing
pub mod Migration
pub mod Embedding
pub mod Listed
pub mod Puts
pub mod Notified
pub mod Snapshot
pub mod Refined
pub mod Tests
use mochi_rkv.Prelude.{
  ℕ, ◌+◌, Bool, true, false, not, ◌&&◌, ◌||◌, List, [], ◌∷◌, length, Option, none, some,
  if◌then◌else◌,
}
use mochi_rkv.Common.{Bytes, Status, success, migrated, timed_out, Ret, returned, blocked, Mode}
use mochi_rkv.OrderedSet.{contains, with_empty}
use mochi_rkv.Watcher.{Watcher, WatchStatus, add_key}
use mochi_rkv.MapBackend.{MapDatabase, is_present}

-- SetDatabase: the comparator of m_db and its keys, m_migrated and m_watcher.
pub record SetDatabase : Type 0 where
  pub cmp : Bytes → Bytes → Bool
  pub db : List Bytes
  pub has_migrated : Bool
  pub watcher : Watcher

-- What other threads do while a call waits, as for MapDatabase.
abbrev pub Wake : Type 0
Wake = WatchStatus × SetDatabase

-- The outcome of the loop `retry: it = m_db->find(key) …`: whether the key is there, or that the call
-- ends.
pub data Sought : Type 0 where
  answer : Bool → Sought
  gave_up : Sought
  waiting : Sought

unfoldable pub look : Bool → ℕ → Bytes → List Wake → SetDatabase → Sought × SetDatabase × List Wake
look mode_wait addr key [] s =
    if contains s.cmp key s.db
    then (answer true, s, [])
    else if mode_wait
    then (waiting, record s { watcher = add_key addr key s.watcher }, [])
    else (answer false, s, [])
look mode_wait addr key ((st, s') ∷ ws) s =
    let retry = look mode_wait addr key ws s' in
    if contains s.cmp key s.db
    then (answer true, s, (st, s') ∷ ws)
    else if mode_wait
    then if is_present st then retry else (gave_up, s', ws)
    else (answer false, s, (st, s') ∷ ws)

-- How a loop over keys goes on after a lookup. One that times out ends the call.
unfoldable pub after_look {ℓ} :
    {O : Type ℓ}
    → Sought × SetDatabase × List Wake
    → O
    → (Bool → List Wake → SetDatabase → Ret × O × SetDatabase)
    → Ret × O × SetDatabase
after_look (answer found, s, ws) o next = next found ws s
after_look (gave_up, s, ws) o next = (returned timed_out, o, s)
after_look (waiting, s, ws) o next = (blocked, o, s)

-- supportsMode: the flags but UPDATE_NEW, that of the Lua filters where the build has Lua.
unfoldable pub supports_mode : Bool → Mode → Bool
supports_mode has_lua mode =
    not mode.other_bits && not mode.update_new && (has_lua || not mode.lua_filter)

-- destroy
unfoldable pub destroy : SetDatabase → SetDatabase
destroy s = if s.has_migrated then s else record s { db = [] }

-- count: the status, and *c where it is written.
unfoldable pub count : SetDatabase → Status × Option ℕ
count s = if s.has_migrated then (migrated, none) else (success, some (length s.db))

-- The database of the map backend with the same keys, each with the empty value.
abbrev pub as_map : SetDatabase → MapDatabase
as_map s = record {
  cmp = s.cmp;
  db = with_empty s.db;
  has_migrated = s.has_migrated;
  watcher = s.watcher;
}
