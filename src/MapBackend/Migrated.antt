-- ===== src/MapBackend/Migrated.antt =====
-- A database that has migrated, and the migration of one.
use mochi_rkv.Prelude.{◌≡◌, false}
use mochi_rkv.MapBackend.{MapDatabase}
use mochi_rkv.MapBackend.Migration.{close_migration, MigrationHandle}

module _ (h : MigrationHandle) (s : MapDatabase) (kept : h.cancelled ≡ false) where
  abbrev pub gone : MapDatabase
  gone = close_migration h s
