-- ===== src/BulkCache/KeepAll.antt =====
-- src/buffer/keep_all_bulk_cache.cpp and default_bulk_cache.cpp.
use mochi_rkv.Prelude.{ℕ, Bool, ◌==◌, List, [], ◌++◌, Option, none, some, if◌then◌else◌}
use mochi_rkv.Common.{add_size, sub_size}
use mochi_rkv.BulkCache.{
  BulkMode, read_only, write_only, read_write, Buffer, Entries, lower_bound, stored, emplace,
  erase_at,
}
use mochi_rkv.BulkCache.Lru.{Got, nothing, got, broken}

-- std::set<yk_buffer_t, bulk_less>
abbrev pub BufferSet : Type 0
BufferSet = Entries (Unit {0})

pub record KeepAllCache : Type 0 where
  pub num_in_use : ℕ
  pub readonly : BufferSet
  pub writeonly : BufferSet
  pub readwrite : BufferSet

-- keep_all_bulk_cache_init
abbrev pub keep_all_init : KeepAllCache
keep_all_init = record { num_in_use = 0; readonly = []; writeonly = []; readwrite = [] }

-- The set of a mode.
abbrev pub buffer_set : BulkMode → KeepAllCache → BufferSet
buffer_set read_only c = c.readonly
buffer_set write_only c = c.writeonly
buffer_set read_write c = c.readwrite

abbrev pub set_buffer_set : BulkMode → BufferSet → KeepAllCache → KeepAllCache
set_buffer_set read_only s c = record c { readonly = s }
set_buffer_set write_only s c = record c { writeonly = s }
set_buffer_set read_write s c = record c { readwrite = s }

-- keep_all_bulk_cache_get
unfoldable pub keep_all_get :
    (ℕ → ℕ) → Option ℕ → Bool → ℕ → Option BulkMode → KeepAllCache → Got × KeepAllCache
unfolding lower_bound erase_at
keep_all_get grown memory created size none c = if size == 0 then (nothing, c) else (broken, c)
keep_all_get grown memory created size (some mode) c =
    let s = buffer_set mode c in
    if size == 0
    then (nothing, c)
    else elim (lower_bound (record { size = size; mode = mode; address = 0 }) s) [
      | some (b, _) ↦ (
        got b,
        record (set_buffer_set mode (erase_at b s) c) { num_in_use = add_size c.num_in_use 1 },
      )
      | none ↦ elim memory [
        | none ↦ (nothing, c)
        | some address ↦
            if created
            then (
              got (record { size = grown size; mode = mode; address = address }),
              record c { num_in_use = add_size c.num_in_use 1 },
            )
            else (nothing, c)
      ]
    ]

-- keep_all_bulk_cache_release
unfoldable pub keep_all_release : Buffer → KeepAllCache → KeepAllCache
unfolding emplace
keep_all_release b c = record (set_buffer_set b.mode (emplace b tt (buffer_set b.mode c)) c) {
  num_in_use = sub_size c.num_in_use 1;
}

-- keep_all_bulk_cache_finalize: the buffers that it frees, in turn.
unfoldable pub keep_all_finalize : KeepAllCache → List Buffer
unfolding stored
keep_all_finalize c = stored c.readonly ++ (stored c.writeonly ++ stored c.readwrite)

-- default_bulk_cache: the cache is the number of its buffers, which grows before new is asked, and
-- stays where it fails.
unfoldable pub default_get : Option ℕ → Bool → ℕ → BulkMode → ℕ → Got × ℕ
default_get memory created size mode num_allocated =
    if size == 0 then (nothing, num_allocated) else elim memory [
      | none ↦ (nothing, add_size num_allocated 1)
      | some address ↦ (
        if created then got (record { size = size; mode = mode; address = address }) else nothing,
        add_size num_allocated 1,
      )
    ]

-- The buffer that it frees is that of the call.
abbrev pub default_release : Buffer → ℕ → Buffer × ℕ
default_release b num_allocated = (b, sub_size num_allocated 1)
