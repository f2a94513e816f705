-- ===== src/Server/Map.antt =====
-- The map backend as the database of the handlers. No other thread has the lock in between: a call
-- that waits is not woken, and a consuming get erases what it has found.
use mochi_rkv.Prelude.{Bool, []}
use mochi_rkv.MapBackend
use mochi_rkv.MapBackend.Read
use mochi_rkv.MapBackend.Write
use mochi_rkv.MapBackend.{MapDatabase}
use mochi_rkv.Server.{DatabaseInterface}

abbrev pub map_interface : Bool → DatabaseInterface
map_interface has_lua = record {
  State = MapDatabase;
  supports_mode = MapBackend.supports_mode has_lua;
  count = MapBackend.count;
  exists = λ mode keys ksizes nflags s. Read.exists mode keys ksizes nflags [] s;
  value_length = λ mode keys ksizes nvsizes s. Read.value_length mode keys ksizes nvsizes [] s;
  put = Write.put;
  get = λ mode packed keys ksizes vals_size vsizes s.
      let g = Read.get mode packed keys ksizes vals_size vsizes [] (λ s'. s') [] s in
      (g.ret, g.slots, g.vals_size, g.after);
  erase = λ mode keys ksizes s. let (r, u, s') = Write.erase mode keys ksizes [] s in (r, s');
}
