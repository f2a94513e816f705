-- ===== src/MapBackend.antt =====
-- src/backends/map.cpp: the database over a std::map. The state, the lookups that may wait, and
-- the operations that take no list of keys. The other operations stand in the child modules.
pub mod Read
pub mod Write
pub mod Listing
pub mod Migration
pub mod Request
pub mod Invariant
pub mod Lookups
pub mod Rounds
pub mod Writes
pub mod Plain
pub mod Erasure
pub mod Listed
pub mod Gets
pub mod Migrated
pub mod Pages
pub mod Snapshot
pub mod Tests
use mochi_rkv.Prelude.{
  ℕ, ◌+◌, Bool, true, false, not, ◌&&◌, ◌||◌, List, [], ◌∷◌, length, Option, none, some,
  if◌then◌else◌,
}
use mochi_rkv.Common.{Bytes, Status, success, migrated, timed_out, Ret, returned, blocked, Mode}
use mochi_rkv.OrderedMap.{Entries, find}
use mochi_rkv.Watcher.{Watcher, WatchStatus, key_present, add_key}

-- MapDatabase: the comparator of m_db and its entries, m_migrated and m_watcher. The lock is held
-- through a whole call, except where a call waits; the allocators and the JSON of the
-- configuration are left out.
pub record MapDatabase : Type 0 where
  pub cmp : Bytes → Bytes → Bool
  pub db : Entries
  pub has_migrated : Bool
  pub watcher : Watcher

-- What other threads do while a call waits: the status with which waitKey returns, and the
-- database at the moment when the call holds the lock again.
abbrev pub Wake : Type 0
Wake = WatchStatus × MapDatabase

-- The outcome of the loop `retry: it = m_db->find(key) …`.
pub data Looked : Type 0 where
  hit : Bytes → Looked
  miss : Looked
  gave_up : Looked
  waiting : Looked

abbrev pub is_present : WatchStatus → Bool
is_present st = elim st [ key_present ↦ true | _ ↦ false ]

-- The lookup of one key, with the retry after each wake. Beside the outcome it returns the
-- database as it stands then, and the wakes that are left.
unfoldable pub look : Bool → ℕ → Bytes → List Wake → MapDatabase → Looked × MapDatabase × List Wake
look mode_wait addr key [] s = elim (find s.cmp key s.db) [
  | some v ↦ (hit v, s, [])
  | none ↦
      if mode_wait
      then (waiting, record s { watcher = add_key addr key s.watcher }, [])
      else (miss, s, [])
]
look mode_wait addr key ((st, s') ∷ ws) s =
    let retry = look mode_wait addr key ws s' in
    elim (find s.cmp key s.db) [
      | some v ↦ (hit v, s, (st, s') ∷ ws)
      | none ↦
          if mode_wait
          then if is_present st then retry else (gave_up, s', ws)
          else (miss, s, (st, s') ∷ ws)
    ]

-- How a loop over keys goes on after a lookup: with the value, or with none on a miss. A lookup
-- that times out ends the call.
unfoldable pub after_look {ℓ} :
    {O : Type ℓ} {S W : Type 0}
    → Looked × S × List W
    → O
    → (Option Bytes → List W → S → Ret × O × S)
    → Ret × O × S
after_look (hit v, s, ws) o next = next (some v) ws s
after_look (miss, s, ws) o next = next none ws s
after_look (gave_up, s, ws) o next = (returned timed_out, o, s)
after_look (waiting, s, ws) o next = (blocked, o, s)

-- supportsMode: all sixteen flags, that of the Lua filters where the build has Lua.
unfoldable pub supports_mode : Bool → Mode → Bool
supports_mode has_lua mode = not mode.other_bits && (has_lua || not mode.lua_filter)

-- destroy
unfoldable pub destroy : MapDatabase → MapDatabase
destroy s = record s { db = [] }

-- count: the status, and *c where it is written.
unfoldable pub count : MapDatabase → Status × Option ℕ
count s = if s.has_migrated then (migrated, none) else (success, some (length s.db))
