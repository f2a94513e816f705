-- ===== src/Server/Sent.antt =====
-- A put of the client, through the handler, to the database.
use mathlib.Core.List.{append_assoc}
use mochi_rkv.Prelude.{
  ℕ, ◌+◌, ◌*◌, ◌-◌, ◌<◌, ◌≡◌, refl, sym, ◌∙◌, arith, List, [], ◌∷◌, ◌++◌, length, some,
  length-append, le→ltb, ltb, true, false, Bool-cases, inl, inr, ◌==◌, min,
}
use mochi_rkv.Common.{Bytes, size_mod, Mode, add_size}
use mochi_rkv.Client.{segments, has_empty}
use mochi_rkv.MapBackend.Request.{concat, sizes_of, length-sizes_of}
use mochi_rkv.MapBackend.Write.{accumulate}
use mochi_rkv.MapBackend.Rounds.{accumulate_lem}
use mochi_rkv.Server.{DatabaseInterface, Rpc, min_size, size_bytes, sizeof_size, read_sizes, region}
use mochi_rkv.Server.Put.{put_buffer, asked}
use mochi_rkv.Server.Layout.{length-size_bytes, read_sizes_lem, region_lem, AllSizes}

-- A provider that is there, with its database, and reaches its client.
abbrev pub all_well : Rpc
all_well = record {
  has_mid = true;
  has_provider = true;
  has_input = true;
  has_origin = true;
  has_database = true;
}

AllSizes-sizes_of : (ks : List Bytes) → length (concat ks) < size_mod → AllSizes (sizes_of ks)
AllSizes-sizes_of [] h = tt
AllSizes-sizes_of (k ∷ ks) h = (
  omega (arith, h, length-append k (concat ks)),
  AllSizes-sizes_of ks (omega (arith, h, length-append k (concat ks))),
)

-- No key is empty where the client finds none.
pub min_size-sizes_of :
    (m : ℕ) (ks : List Bytes)
    → 0 < m
    → has_empty ks ≡ false
    → (min_size m (sizes_of ks) == 0) ≡ false
unfolding min_size has_empty
min_size-sizes_of m [] h e = ground (arith, h)
min_size-sizes_of m (k ∷ ks) h e = elim (Bool-cases (length k == 0)) [
  | inl t ↦ cc (rw t at e)
  | inr t ↦ min_size-sizes_of (min m (length k)) ks (ground (arith, h, t)) (rw t at e)
]

pub read_sizes_at :
    (buf before rest : Bytes) (ns : List ℕ) (at n : ℕ)
    → at ≡ length before
    → n ≡ length ns
    → AllSizes ns
    → buf ≡ before ++ (size_bytes ns ++ rest)
    → read_sizes buf at n ≡ some ns
read_sizes_at buf before rest ns at n ea en h e =
    rw (ea, en) (read_sizes_lem buf before rest ns h e)

pub region_at :
    (addr : ℕ) (buf before k rest : Bytes) (at n : ℕ)
    → at ≡ length before
    → n ≡ length k
    → buf ≡ before ++ (k ++ rest)
    → region addr buf at n ≡ some (record { addr = addr + at; bytes = k })
region_at addr buf before k rest at n ea en e = rw (ea, en) (region_lem addr buf before k rest e)

module _ (ks vs : List Bytes) (tail : Bytes) (n : ℕ) (nk : n ≡ length ks) (nv : n ≡ length vs)
    (short : length (segments (sizes_of ks) (sizes_of vs) (concat ks) (concat vs)) < size_mod) where
  abbrev request : Bytes
  request = segments (sizes_of ks) (sizes_of vs) (concat ks) (concat vs)

  pub length-request :
      length request ≡ 2 * n * sizeof_size + length (concat ks) + length (concat vs)
  unfolding segments
  length-request = omega (
    arith,
    nk,
    nv,
    length-append (size_bytes (sizes_of ks)) (size_bytes (sizes_of vs) ++ (concat ks ++ concat vs)),
    length-append (size_bytes (sizes_of vs)) (concat ks ++ concat vs),
    length-append (concat ks) (concat vs),
    length-size_bytes (sizes_of ks),
    length-size_bytes (sizes_of vs),
    length-sizes_of ks,
    length-sizes_of vs,
  )

  parts_0 :
      request ++ tail
      ≡ size_bytes (sizes_of ks) ++ ((size_bytes (sizes_of vs) ++ (concat ks ++ concat vs)) ++ tail)
  unfolding segments
  parts_0 = simp append_assoc

  parts_1 :
      request ++ tail
      ≡ size_bytes (sizes_of ks) ++ (size_bytes (sizes_of vs) ++ ((concat ks ++ concat vs) ++ tail))
  unfolding segments
  parts_1 = simp append_assoc

  parts_2 :
      request ++ tail
      ≡ (size_bytes (sizes_of ks) ++ size_bytes (sizes_of vs)) ++ (concat ks ++ (concat vs ++ tail))
  unfolding segments
  parts_2 = simp append_assoc

  parts_3 :
      request ++ tail
      ≡ ((size_bytes (sizes_of ks) ++ size_bytes (sizes_of vs)) ++ concat ks) ++ (concat vs ++ tail)
  unfolding segments
  parts_3 = simp append_assoc

  pub AllSizes-parts : AllSizes (sizes_of ks) × AllSizes (sizes_of vs)
  AllSizes-parts = (
    AllSizes-sizes_of ks (omega (arith, length-request, short)),
    AllSizes-sizes_of vs (omega (arith, length-request, short)),
  )

  pub length_sizes :
      2 * n * sizeof_size ≡ length (size_bytes (sizes_of ks) ++ size_bytes (sizes_of vs))
  length_sizes = omega (
    arith,
    nk,
    nv,
    length-append (size_bytes (sizes_of ks)) (size_bytes (sizes_of vs)),
    length-size_bytes (sizes_of ks),
    length-size_bytes (sizes_of vs),
    length-sizes_of ks,
    length-sizes_of vs,
  )

  -- The handler finds the parts of the request in its buffer, whatever stands behind them.
  pub put_buffer_lem :
      (D : DatabaseInterface) (mode : Mode) (addr : ℕ) (s : D.State)
      → has_empty ks ≡ false
      → put_buffer D
          (record { mode = mode; count = n; offset = 0; size = length request })
          addr
          (request ++ tail)
          s
        ≡ asked D (
            D.put mode
              (record { addr = addr + 2 * n * sizeof_size; bytes = concat ks })
              (sizes_of ks)
              (record {
                addr = addr + (2 * n * sizeof_size + length (concat ks));
                bytes = concat vs;
              })
              (sizes_of vs)
              s)
  unfolding put_buffer
  put_buffer_lem D mode addr s full =
      let l = length-request in
      let total : accumulate 0 (sizes_of ks) ≡ length (concat ks) =
        omega (arith, accumulate_lem 0 ks (omega (arith, l, short))) in
      let total' : accumulate 0 (sizes_of vs) ≡ length (concat vs) =
        omega (arith, accumulate_lem 0 vs (omega (arith, l, short))) in
      let check : ltb (length request)
            (add_size (add_size (2 * n * sizeof_size) (length (concat ks))) (length (concat vs)))
          ≡ false =
        le→ltb (length request) _ (omega (arith, l, short)) in
      rw
        (
          read_sizes_at (request ++ tail) [] _ (sizes_of ks) 0 n refl
              (nk ∙ sym (length-sizes_of ks)) AllSizes-parts.0 parts_0,
          read_sizes_at (request ++ tail) (size_bytes (sizes_of ks)) _ (sizes_of vs)
              (n * sizeof_size) n
              (omega (arith, nk, length-size_bytes (sizes_of ks), length-sizes_of ks))
              (nv ∙ sym (length-sizes_of vs)) AllSizes-parts.1 parts_1,
          total,
          total',
          min_size-sizes_of (size_mod - 1) ks (omega arith) full,
          check,
          region_at addr (request ++ tail) (size_bytes (sizes_of ks) ++ size_bytes (sizes_of vs))
              (concat ks) (concat vs ++ tail) (2 * n * sizeof_size) (length (concat ks))
              length_sizes refl parts_2,
          region_at addr (request ++ tail)
              ((size_bytes (sizes_of ks) ++ size_bytes (sizes_of vs)) ++ concat ks) (concat vs) tail
              (2 * n * sizeof_size + length (concat ks)) (length (concat vs))
              (omega (
                arith,
                length_sizes,
                length-append (size_bytes (sizes_of ks) ++ size_bytes (sizes_of vs)) (concat ks),
              ))
              refl parts_3,
        )
        refl
