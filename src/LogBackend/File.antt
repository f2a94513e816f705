-- ===== src/LogBackend/File.antt =====
-- MemoryMappedFile of src/backends/log.cpp: a file is its bytes, as many as are mapped. What flush
-- does is compiled out, and its status is not used.
use mochi_rkv.Prelude.{ℕ, zero, suc, [], ◌∷◌, length, none, some, ltb, if◌then◌else◌}
use mochi_rkv.Common.{Bytes, Status, success, size_error, Ret, returned, fault, slice, add_size}

-- memcpy to an offset.
unfoldable pub overwrite : Bytes → ℕ → Bytes → Bytes
overwrite [] off bytes = []
overwrite (x ∷ file) (suc off) bytes = x ∷ overwrite file off bytes
overwrite (x ∷ file) zero [] = x ∷ file
overwrite (x ∷ file) zero (y ∷ bytes) = y ∷ overwrite file zero bytes

-- MemoryMappedFile::write. The sum of the check may wrap: then the copy goes outside of the file.
unfoldable pub write : Bytes → ℕ → Bytes → Ret × Bytes
unfolding overwrite slice
write file off bytes =
    if ltb (length file) (add_size off (length bytes))
    then (returned size_error, file)
    else elim (slice file off (length bytes)) [
      | none ↦ (fault, file)
      | some old ↦ (returned success, overwrite file off bytes)
    ]

-- MemoryMappedFile::read and MemoryMappedFile::fetch: the bytes with the status OK.
pub data Read : Type 0 where
  bytes : Bytes → Read
  failed : Status → Read
  outside : Read

unfoldable pub read : Bytes → ℕ → ℕ → Read
unfolding slice
read file off n =
    if ltb (length file) (add_size off n)
    then Read.failed size_error
    else elim (slice file off n) [ none ↦ Read.outside | some b ↦ Read.bytes b ]

-- MemoryMappedFile::extend: the new size, where ftruncate fills with zeros.
unfoldable pub extend : ℕ → ℕ → ℕ
extend new_size size = if ltb size new_size then new_size else size
