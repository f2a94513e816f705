-- ===== src/UnorderedMap.antt =====
-- src/backends/unordered_map.cpp: the database over a std::unordered_map. The state, the lookups that
-- may wait, and the operations that take no list of keys.
pub mod Read
pub mod Write
pub mod Migration
pub mod Related
pub mod Rounds
pub mod Puts
pub mod Packed
pub mod Bisimilar
pub mod Tests
use mochi_rkv.Prelude.{
  ℕ, Bool, true, false, not, ◌&&◌, ◌||◌, List, [], ◌∷◌, length, Option, none, some, if◌then◌else◌,
}
use mochi_rkv.Common.{Bytes, Status, success, migrated, Mode}
use mochi_rkv.OrderedMap.{Entries}
use mochi_rkv.HashMap.{find}
use mochi_rkv.Watcher.{Watcher, WatchStatus, add_key}
use mochi_rkv.MapBackend.{Looked, hit, miss, gave_up, waiting, is_present}

-- UnorderedMapDatabase: the entries of m_db, m_migrated and m_watcher.
pub record UnorderedMapDatabase : Type 0 where
  pub db : Entries
  pub has_migrated : Bool
  pub watcher : Watcher

-- What other threads do while a call waits, as for MapDatabase.
abbrev pub Wake : Type 0
Wake = WatchStatus × UnorderedMapDatabase

-- The loop `retry: it = m_db->find(key) …`.
unfoldable pub look :
    Bool → ℕ → Bytes → List Wake → UnorderedMapDatabase → Looked × UnorderedMapDatabase × List Wake
look mode_wait addr key [] s = elim (find key s.db) [
  | some v ↦ (hit v, s, [])
  | none ↦
      if mode_wait
      then (waiting, record s { watcher = add_key addr key s.watcher }, [])
      else (miss, s, [])
]
look mode_wait addr key ((st, s') ∷ ws) s =
    let retry = look mode_wait addr key ws s' in
    elim (find key s.db) [
      | some v ↦ (hit v, s, (st, s') ∷ ws)
      | none ↦
          if mode_wait
          then if is_present st then retry else (gave_up, s', ws)
          else (miss, s, (st, s') ∷ ws)
    ]

-- supportsMode: all sixteen flags, that of the Lua filters where the build has Lua.
unfoldable pub supports_mode : Bool → Mode → Bool
supports_mode has_lua mode = not mode.other_bits && (has_lua || not mode.lua_filter)

-- destroy
unfoldable pub destroy : UnorderedMapDatabase → UnorderedMapDatabase
destroy s = record s { db = [] }

-- count: the status, and *c where it is written.
unfoldable pub count : UnorderedMapDatabase → Status × Option ℕ
count s = if s.has_migrated then (migrated, none) else (success, some (length s.db))
