-- ===== src/MapBackend/Migration.antt =====
-- MapMigrationHandle, startMigration and recover of src/backends/map.cpp. A file is its bytes; the
-- temporary file's name and the failures of writing it are left out.
use mochi_rkv.Prelude.{
  ℕ, zero, suc, ◌+◌, ◌*◌, Bool, true, false, not, List, [], ◌∷◌, ◌++◌, length, take, drop, Option,
  none, some, ltb, if◌then◌else◌,
}
use mochi_rkv.Common.{Bytes, Status, success, migrated, invalid_arg, io_error, add_size}
use mochi_rkv.Bytes.Codec.{to_le, of_le}
use mochi_rkv.OrderedMap.{Entries, emplace}
use mochi_rkv.MapBackend.{MapDatabase}

-- sizeof(size_t)
abbrev pub sizeof_size : ℕ
sizeof_size = 8

-- The file that the constructor of the handle writes.
unfoldable pub snapshot : Entries → Bytes
unfolding to_le
snapshot [] = []
snapshot ((key, val) ∷ m) =
    to_le sizeof_size (length key)
    ++ (key ++ (to_le sizeof_size (length val) ++ (val ++ snapshot m)))

pub record MigrationHandle : Type 0 where
  pub file : Bytes
  pub cancelled : Bool

unfoldable pub start_migration : MapDatabase → Status × Option MigrationHandle
unfolding snapshot
start_migration s =
    if s.has_migrated
    then (migrated, none)
    else (success, some (record { file = snapshot s.db; cancelled = false }))

unfoldable pub cancel : MigrationHandle → MigrationHandle
cancel h = record h { cancelled = true }

-- ~MapMigrationHandle
unfoldable pub close_migration : MigrationHandle → MapDatabase → MapDatabase
close_migration h s = if h.cancelled then s else record s { has_migrated = true; db = [] }

-- ifs.read of n bytes: what is read and what is left; none sets the stream's fail bit.
unfoldable pub read : ℕ → Bytes → Option (Bytes × Bytes)
read n file = if ltb (length file) n then none else some (take n file, drop n file)

infixl 5 ◌>>=◌
abbrev pub ◌>>=◌ {ℓ κ} : {A : Type ℓ} {B : Type κ} → Option A → (A → Option B) → Option B
none >>= f = none
some a >>= f = f a

-- One round of the loop of recover: the key, the value and the rest of the file. A size behind a
-- failed read is not used, since the check of ifs.fail() ends the loop.
unfoldable pub read_entry : Bytes → Option (Bytes × Bytes × Bytes)
unfolding read of_le
read_entry file = do
  (ks, r1) ← read sizeof_size file
  (key, r2) ← read (of_le ks) r1
  (vs, r3) ← read sizeof_size r2
  (val, r4) ← read (of_le vs) r3
  some (key, val, r4)

-- while(size_read < total_size), with fuel. The outer option is none if the fuel ran out.
unfoldable pub recover_loop :
    (Bytes → Bytes → Bool) → ℕ → ℕ → ℕ → Bytes → Entries → Option (Status × Entries)
unfolding read_entry
recover_loop cmp zero total size_read file m = none
recover_loop cmp (suc fuel) total size_read file m =
    if not (ltb size_read total) then some (success, m) else elim (read_entry file) [
      | none ↦ some (io_error, m)
      | some (key, val, rest) ↦
          recover_loop cmp fuel total
            (add_size size_read (add_size (2 * sizeof_size + length key) (length val))) rest
            (emplace cmp key val m)
    ]

-- recover: the list of the files' contents, none for a file that cannot be opened. `cmp` is the
-- comparator of the configuration, or the status with which `create` refuses it. It returns the
-- status and the database, where it is created.
unfoldable pub recover :
    Status × (Bytes → Bytes → Bool) → List (Option Bytes) → Option (Status × Option MapDatabase)
unfolding recover_loop
recover (created, cmp) (some file ∷ []) = elim created [
  | success ↦ elim (recover_loop cmp (suc (length file)) (length file) 0 file []) [
    | none ↦ none
    | some (st, m) ↦
        some (st, some (record { cmp = cmp; db = m; has_migrated = false; watcher = [] }))
  ]
  | st ↦ some (st, none)
]
recover _ (none ∷ []) = some (io_error, none)
recover _ _ = some (invalid_arg, none)
