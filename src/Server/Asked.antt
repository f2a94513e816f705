-- ===== src/Server/Asked.antt =====
-- A get of the client whose values follow the sizes given, through the handler, to the database.
use mathlib.Core.List.{append_assoc}
use mochi_rkv.Prelude.{
  ℕ, ◌+◌, ◌*◌, ◌-◌, ◌%◌, ◌≤◌, ◌<◌, ◌≡◌, refl, sym, ap, ◌∙◌, arith, List, [], ◌∷◌, ◌++◌, length,
  drop, some, length-append, le→ltb, ltb, true, false, Option, length-drop,
}
use mochi_rkv.Common.{Bytes, size_mod, Mode, add_size}
use mochi_rkv.LogBackend.File.{overwrite}
use mochi_rkv.Client.{segments, has_empty, bulk_input}
use mochi_rkv.MapBackend.Request.{concat, sizes_of, length-sizes_of, slice_item}
use mochi_rkv.MapBackend.Write.{accumulate}
use mochi_rkv.MapBackend.Rounds.{accumulate_lem}
use mochi_rkv.Server.{
  DatabaseInterface, Transport, IsTransport, checked, size_bytes, sizeof_size, pulled,
}
use mochi_rkv.Server.Put.{Input}
use mochi_rkv.Server.Get.{get_handler, get_sized, get_checked, with_sizes, Layout}
use mochi_rkv.Server.Layout.{length-size_bytes, pulled-slice, pulled_start, overwrite_start}
use mochi_rkv.Server.Sent.{
  all_well, length-request, length_sizes, AllSizes-parts, read_sizes_at, region_at,
  min_size-sizes_of,
}

-- Bytes that are copied behind the front of a buffer.
overwrite_behind :
    (front tail b : Bytes)
    → length b ≤ length tail
    → overwrite (front ++ tail) (length front) b ≡ front ++ (b ++ drop (length b) tail)
unfolding overwrite
overwrite_behind [] tail b h = overwrite_start tail b h
overwrite_behind (x ∷ front) tail b h = ap (◌∷◌ x) (overwrite_behind front tail b h)

module _ (ks vs : List Bytes) (n : ℕ) (nk : n ≡ length ks) (nv : n ≡ length vs)
    (short : length (segments (sizes_of ks) (sizes_of vs) (concat ks) (concat vs)) < size_mod)
    (buf : Bytes)
    (room : length (segments (sizes_of ks) (sizes_of vs) (concat ks) (concat vs))
      ≤ length buf) where
  abbrev pub get_request : Bytes
  get_request = segments (sizes_of ks) (sizes_of vs) (concat ks) (concat vs)

  abbrev pub front : Bytes
  front = size_bytes (sizes_of ks) ++ size_bytes (sizes_of vs)

  -- The buffer behind the transfer of the sizes, and behind that of the keys.
  abbrev with_front : Bytes
  with_front = front ++ drop (length front) buf

  abbrev pub with_keys : Bytes
  with_keys = front ++ (concat ks ++ drop (length (concat ks)) (drop (length front) buf))

  pub front_size : n * sizeof_size * 2 ≡ length front
  front_size = omega (arith, length_sizes ks vs [] n nk nv short)

  pub request_size : length get_request ≡ length front + (length (concat ks) + length (concat vs))
  request_size = omega (arith, length-request ks vs [] n nk nv short, front_size)

  front_lem : get_request ≡ front ++ (concat ks ++ concat vs)
  unfolding segments
  front_lem = sym (append_assoc (size_bytes (sizes_of ks)) (size_bytes (sizes_of vs)) _)

  pulled_sizes :
      (t : Transport)
      → IsTransport t get_request
      → pulled t buf 0 0 (n * sizeof_size * 2) ≡ some with_front
  pulled_sizes t law = rw front_size (
      pulled_start t get_request buf front (concat ks ++ concat vs) law front_lem
        (omega (arith, room, request_size)))

  pulled_keys :
      (t : Transport)
      → IsTransport t get_request
      → pulled t with_front (n * sizeof_size * 2) (n * sizeof_size * 2) (length (concat ks))
        ≡ some with_keys
  pulled_keys t law =
      let r = length-drop (length front) buf in
      rw front_size (
        pulled-slice t get_request with_front (concat ks) (length front) (length front)
          (length (concat ks)) law
          (omega (arith, room, request_size, r, length-append front (drop (length front) buf)))
          (omega (arith, request_size))
          (slice_item get_request front (concat ks) (concat vs) front_lem)
        ∙ ap some (
            overwrite_behind front (drop (length front) buf) (concat ks)
              (omega (arith, room, request_size, r))))

  abbrev pub layout : Layout
  layout = record {
    offset = 0;
    vsizes_offset = n * sizeof_size;
    vals_offset = n * sizeof_size * 2 + length (concat ks);
    remaining_vsize = length get_request - (n * sizeof_size * 2 + length (concat ks));
  }

  abbrev pub get_input : Mode → Input
  get_input mode = bulk_input mode n get_request

  -- The database is asked for these keys, with the sizes of the buffers for the values.
  pub get_asks :
      (D : DatabaseInterface) (t : Transport) (cache_get : ℕ → Option Bytes) (addr : ℕ)
      (mode : Mode) (s : D.State)
      → has_empty ks ≡ false
      → D.supports_mode mode ≡ true
      → cache_get (length get_request) ≡ some buf
      → IsTransport t get_request
      → get_handler D t cache_get all_well (get_input mode) false addr s
        ≡ get_checked D t
            (get_input mode)
            false
            layout
            (sizes_of ks)
            (sizes_of vs)
            (record { addr = addr + n * sizeof_size * 2; bytes = concat ks })
            with_keys
            s
  unfolding get_handler with_sizes checked get_sized
  get_asks D t cache_get addr mode s full supported cached law =
      let l = request_size in
      let f = front_size in
      let total : accumulate 0 (sizes_of ks) ≡ length (concat ks) =
        omega (arith, accumulate_lem 0 ks (omega (arith, l, short))) in
      let total' : accumulate 0 (sizes_of vs) ≡ length (concat vs) =
        omega (arith, accumulate_lem 0 vs (omega (arith, l, short))) in
      let vals : add_size (n * sizeof_size * 2) (length (concat ks))
          ≡ n * sizeof_size * 2 + length (concat ks) =
        omega (arith, l, f, short) in
      let keys : add_size 0 (n * sizeof_size * 2) ≡ n * sizeof_size * 2 =
        omega (arith, l, f, short) in
      let wrap : n * sizeof_size * 2 % size_mod ≡ n * sizeof_size * 2 =
        omega (arith, l, f, short) in
      let check : ltb (length get_request) (n * sizeof_size * 2 + length (concat ks)) ≡ false =
        le→ltb (length get_request) _ (omega (arith, l, f)) in
      let check' : ltb (length get_request)
            (add_size (n * sizeof_size * 2 + length (concat ks)) (length (concat vs)))
          ≡ false =
        le→ltb (length get_request) _ (omega (arith, l, f, short)) in
      rw (supported, cached, wrap, pulled_sizes t law)
        (rw
          (
            read_sizes_at with_front [] (size_bytes (sizes_of vs) ++ drop (length front) buf)
                (sizes_of ks) 0 n refl (nk ∙ sym (length-sizes_of ks))
                (AllSizes-parts ks vs [] n nk nv short).0
                (append_assoc (size_bytes (sizes_of ks)) _ _),
            total,
            min_size-sizes_of (size_mod - 1) ks (omega arith) full,
            vals,
            check,
            read_sizes_at with_front (size_bytes (sizes_of ks)) (drop (length front) buf)
                (sizes_of vs) (n * sizeof_size) n
                (omega (arith, nk, length-size_bytes (sizes_of ks), length-sizes_of ks))
                (nv ∙ sym (length-sizes_of vs)) (AllSizes-parts ks vs [] n nk nv short).1
                (append_assoc (size_bytes (sizes_of ks)) _ _),
            total',
            check',
            keys,
            pulled_keys t law,
            region_at addr with_keys front (concat ks) _ (n * sizeof_size * 2) (length (concat ks))
                f refl refl,
          )
          refl)
