-- ===== src/UnorderedMap/Migration.antt =====
-- UnorderedMapMigrationHandle, startMigration and recover of src/backends/unordered_map.cpp, over files
-- as in MapBackend/Migration. `walk` gives the entries in the order in which the table is walked.
use mochi_rkv.Prelude.{
  ℕ, zero, suc, ◌+◌, ◌*◌, not, false, List, [], ◌∷◌, length, Option, none, some, ltb, if◌then◌else◌,
  true,
}
use mochi_rkv.Common.{Bytes, Status, success, migrated, invalid_arg, io_error, add_size}
use mochi_rkv.OrderedMap.{Entries}
use mochi_rkv.HashMap.{emplace}
use mochi_rkv.MapBackend.Migration.{sizeof_size, MigrationHandle, snapshot, read_entry}
use mochi_rkv.UnorderedMap.{UnorderedMapDatabase}

unfoldable pub start_migration :
    (Entries → Entries) → UnorderedMapDatabase → Status × Option MigrationHandle
unfolding snapshot
start_migration walk s =
    if s.has_migrated
    then (migrated, none)
    else (success, some (record { file = snapshot (walk s.db); cancelled = false }))

-- ~UnorderedMapMigrationHandle
unfoldable pub close_migration : MigrationHandle → UnorderedMapDatabase → UnorderedMapDatabase
close_migration h s = if h.cancelled then s else record s { has_migrated = true; db = [] }

-- while(size_read < total_size), with fuel. The outer option is none if the fuel ran out.
unfoldable pub recover_loop : ℕ → ℕ → ℕ → Bytes → Entries → Option (Status × Entries)
unfolding read_entry
recover_loop zero total size_read file m = none
recover_loop (suc fuel) total size_read file m =
    if not (ltb size_read total) then some (success, m) else elim (read_entry file) [
      | none ↦ some (io_error, m)
      | some (key, val, rest) ↦
          recover_loop fuel total
            (add_size size_read (add_size (2 * sizeof_size + length key) (length val))) rest
            (emplace key val m)
    ]

-- recover: `created` is the status with which `create` takes the configuration.
unfoldable pub recover :
    Status → List (Option Bytes) → Option (Status × Option UnorderedMapDatabase)
unfolding recover_loop
recover created (some file ∷ []) = elim created [
  | success ↦ elim (recover_loop (suc (length file)) (length file) 0 file []) [
    | none ↦ none
    | some (st, m) ↦ some (st, some (record { db = m; has_migrated = false; watcher = [] }))
  ]
  | st ↦ some (st, none)
]
recover _ (none ∷ []) = some (io_error, none)
recover _ _ = some (invalid_arg, none)
