-- ===== src/SetBackend/Migration.antt =====
-- SetMigrationHandle, startMigration and recover of src/backends/set.cpp, over files as in
-- MapBackend/Migration.
use mochi_rkv.Prelude.{
  ℕ, zero, suc, Bool, not, false, List, [], ◌∷◌, ◌++◌, length, Option, none, some, ltb,
  if◌then◌else◌, true,
}
use mochi_rkv.Common.{Bytes, Status, success, migrated, invalid_arg, io_error, add_size}
use mochi_rkv.Bytes.Codec.{to_le, of_le}
use mochi_rkv.OrderedSet.{emplace}
use mochi_rkv.MapBackend.Migration.{sizeof_size, MigrationHandle, read, ◌>>=◌}
use mochi_rkv.SetBackend.{SetDatabase}

-- The file that the constructor of the handle writes.
unfoldable pub snapshot : List Bytes → Bytes
unfolding to_le
snapshot [] = []
snapshot (key ∷ l) = to_le sizeof_size (length key) ++ (key ++ snapshot l)

unfoldable pub start_migration : SetDatabase → Status × Option MigrationHandle
unfolding snapshot
start_migration s =
    if s.has_migrated
    then (migrated, none)
    else (success, some (record { file = snapshot s.db; cancelled = false }))

-- ~SetMigrationHandle
unfoldable pub close_migration : MigrationHandle → SetDatabase → SetDatabase
close_migration h s = if h.cancelled then s else record s { has_migrated = true; db = [] }

-- One round of the loop of recover: the key and the rest of the file.
unfoldable pub read_key : Bytes → Option (Bytes × Bytes)
unfolding read of_le
read_key file = do (ks, r1) ← read sizeof_size file; read (of_le ks) r1

-- while(size_read < total_size), with fuel. The outer option is none if the fuel ran out.
unfoldable pub recover_loop :
    (Bytes → Bytes → Bool) → ℕ → ℕ → ℕ → Bytes → List Bytes → Option (Status × List Bytes)
unfolding read_key
recover_loop cmp zero total size_read file l = none
recover_loop cmp (suc fuel) total size_read file l =
    if not (ltb size_read total) then some (success, l) else elim (read_key file) [
      | none ↦ some (io_error, l)
      | some (key, rest) ↦
          recover_loop cmp fuel total (add_size size_read (add_size sizeof_size (length key))) rest
            (emplace cmp key l)
    ]

-- recover, as that of the map backend.
unfoldable pub recover :
    Status × (Bytes → Bytes → Bool) → List (Option Bytes) → Option (Status × Option SetDatabase)
unfolding recover_loop
recover (created, cmp) (some file ∷ []) = elim created [
  | success ↦ elim (recover_loop cmp (suc (length file)) (length file) 0 file []) [
    | none ↦ none
    | some (st, l) ↦
        some (st, some (record { cmp = cmp; db = l; has_migrated = false; watcher = [] }))
  ]
  | st ↦ some (st, none)
]
recover _ (none ∷ []) = some (io_error, none)
recover _ _ = some (invalid_arg, none)
