-- ===== src/SetBackend/Snapshot.antt =====
-- Migration of the set database: the file that is written is read back as the same set.
use mochi_rkv.Prelude.{List, ◌++◌, length}
use mochi_rkv.Common.{Bytes}
use mochi_rkv.Bytes.Codec.{to_le}
use mochi_rkv.MapBackend.Migration.{sizeof_size}

abbrev framed : Bytes → Bytes → Bytes
framed k rest = to_le sizeof_size (length k) ++ (k ++ rest)
