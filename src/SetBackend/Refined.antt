-- ===== src/SetBackend/Refined.antt =====
-- The set database beside the map database that holds the same keys with empty values.
use mochi_rkv.Prelude.{ℕ, ◌≡◌, Bool, List}
use mochi_rkv.Common.{Bytes, Mode, UserMem}
use mochi_rkv.Filters.{KeyValueFilter}
use mochi_rkv.MapBackend
use mochi_rkv.MapBackend.Read as MapRead
use mochi_rkv.MapBackend.Write as MapWrite
use mochi_rkv.MapBackend.Listing as MapListing
use mochi_rkv.SetBackend.{SetDatabase, Wake, as_map, count}
use mochi_rkv.SetBackend.Read.{exists, value_length}
use mochi_rkv.SetBackend.Write.{erase}
use mochi_rkv.SetBackend.Listing.{list_keys, list_key_values}
use mochi_rkv.SetBackend.Embedding.{
  map_wakes, on_map, exists-as_map, length-as_map, erase-as_map, count-as_map,
}
use mochi_rkv.SetBackend.Listed.{list_keys-as_map, without_values, list_key_values-as_map}

-- On every request, migrated or not, and through every wait: exists, length and erase of the set
-- database end as those of the map database with empty values do, with the same outputs and the same
-- keys left; count and the listings answer the same, but that a listing of pairs ends at 0 in the
-- values.
pub set_answers_as_map :
    (mode : Mode) (keys : UserMem) (ksizes : List ℕ) (ws : List Wake) (s : SetDatabase)
    → ((nflags : ℕ)
        → MapRead.exists mode keys ksizes nflags (map_wakes ws) (as_map s)
          ≡ on_map (exists mode keys ksizes nflags ws s))
      × ((nvsizes : ℕ)
          → MapRead.value_length mode keys ksizes nvsizes (map_wakes ws) (as_map s)
            ≡ on_map (value_length mode keys ksizes nvsizes ws s))
      × (MapWrite.erase mode keys ksizes (map_wakes ws) (as_map s)
          ≡ on_map (erase mode keys ksizes ws s))
      × (MapBackend.count (as_map s) ≡ count s)
      × ((packed : Bool) (from_key : Bytes) (filter : KeyValueFilter) (buf_size : ℕ)
            (sizes : List ℕ)
          → MapListing.list_keys mode packed from_key filter buf_size sizes (as_map s)
            ≡ list_keys mode packed from_key filter buf_size sizes s)
      × ((packed : Bool) (from_key : Bytes) (filter : KeyValueFilter) (kcap : ℕ) (sizes : List ℕ)
            (vcap : ℕ) (vsizes : List ℕ)
          → without_values (
              MapListing.list_key_values mode packed from_key filter kcap sizes vcap vsizes
                (as_map s))
            ≡ list_key_values mode packed from_key filter kcap sizes vcap vsizes s)
set_answers_as_map mode keys ksizes ws s = (
  exists-as_map mode keys ksizes ws s,
  length-as_map mode keys ksizes ws s,
  erase-as_map mode keys ksizes ws s,
  count-as_map s,
  λ packed from_key filter buf_size sizes.
      list_keys-as_map mode packed from_key filter buf_size sizes s,
  λ packed from_key filter kcap sizes vcap vsizes.
      list_key_values-as_map mode packed from_key filter kcap sizes vcap vsizes s,
)
