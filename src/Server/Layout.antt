-- ===== src/Server/Layout.antt =====
-- What a handler reads from a buffer that holds a request of the client.
use mathlib.Core.List.{append_assoc}
use mochi_rkv.Prelude.{
  ℕ, ◌+◌, ◌*◌, ◌-◌, ◌≤◌, ◌<◌, ◌≡◌, refl, sym, ap, ◌∙◌, arith, List, [], ◌∷◌, ◌++◌, length, drop,
  some, length-append,
}
use mochi_rkv.Common.{Bytes, size_mod, slice}
use mochi_rkv.Bytes.Codec.{to_le, of_le-to_le, length-to_le}
use mochi_rkv.LogBackend.File.{overwrite}
use mochi_rkv.MapBackend.Request.{slice_item}
use mochi_rkv.Server.{Transport, IsTransport, read_sizes, size_bytes, region, pulled, sizeof_size}

pub length-size_bytes : (ns : List ℕ) → length (size_bytes ns) ≡ length ns * sizeof_size
length-size_bytes [] = refl
length-size_bytes (n ∷ ns) =
    omega (arith, length-append (to_le 8 n) (size_bytes ns), length-to_le 8 n, length-size_bytes ns)

-- Bytes that are copied to the start of a buffer.
pub overwrite_start :
    (buf b : Bytes) → length b ≤ length buf → overwrite buf 0 b ≡ b ++ drop (length b) buf
unfolding overwrite
overwrite_start [] [] h = refl
overwrite_start [] (y ∷ b) h = absurd (omega (arith, h))
overwrite_start (x ∷ buf) [] h = refl
overwrite_start (x ∷ buf) (y ∷ b) h = ap (◌∷◌ y) (overwrite_start buf b (omega (arith, h)))

-- A transfer of bytes of the region to a place of the buffer that has room for them.
pub pulled-slice :
    (t : Transport) (remote buf b : Bytes) (at off n : ℕ)
    → IsTransport t remote
    → n ≤ length buf - at
    → off + n ≤ length remote
    → slice remote off n ≡ some b
    → pulled t buf at off n ≡ some (overwrite buf at b)
unfolding pulled
pulled-slice t remote buf b at off n law room there e =
    rw (law.pull_inside (length buf - at) off n room there, pulled) (rw e refl)

-- The same of the first bytes, to the start of the buffer.
pub pulled_start :
    (t : Transport) (remote buf front rest : Bytes)
    → IsTransport t remote
    → remote ≡ front ++ rest
    → length front ≤ length buf
    → pulled t buf 0 0 (length front) ≡ some (front ++ drop (length front) buf)
pulled_start t remote buf front rest law e h =
    pulled-slice t remote buf front 0 0 (length front) law (omega (arith, h))
      (omega (arith, ap length e, length-append front rest)) (slice_item remote [] front rest e)
    ∙ ap some (overwrite_start buf front h)

slice_size :
    (buf before rest : Bytes) (n : ℕ)
    → buf ≡ before ++ (to_le 8 n ++ rest)
    → slice buf (length before) sizeof_size ≡ some (to_le 8 n)
unfolding to_le
slice_size buf before rest n e = slice_item buf before (to_le 8 n) rest e

abbrev pub AllSizes : List ℕ → Type 0
AllSizes [] = Unit
AllSizes (n ∷ ns) = (n < size_mod) × AllSizes ns

length-front : (before : Bytes) (n : ℕ) → length (before ++ to_le 8 n) ≡ length before + sizeof_size
length-front before n = omega (arith, length-append before (to_le 8 n), length-to_le 8 n)

-- The sizes come back from their bytes, wherever they stand in the buffer.
pub read_sizes_lem :
    (buf before rest : Bytes) (ns : List ℕ)
    → AllSizes ns
    → buf ≡ before ++ (size_bytes ns ++ rest)
    → read_sizes buf (length before) (length ns) ≡ some ns
unfolding read_sizes
read_sizes_lem buf before rest [] h e = refl
read_sizes_lem buf before rest (n ∷ ns) (h, hs) e =
    let e' : buf ≡ before ++ (to_le 8 n ++ (size_bytes ns ++ rest)) =
      e ∙ ap (λ r. before ++ r) (append_assoc (to_le 8 n) (size_bytes ns) rest) in
    let later : read_sizes buf (length before + sizeof_size) (length ns) ≡ some ns =
      rw (length-front before n) at (
        read_sizes_lem buf (before ++ to_le 8 n) rest ns hs
          (e' ∙ sym (append_assoc before (to_le 8 n) (size_bytes ns ++ rest)))) in
    rw (slice_size buf before (size_bytes ns ++ rest) n e', read_sizes)
      (rw later (ap (λ m. some (m ∷ ns)) (of_le-to_le n h)))

pub region_lem :
    (addr : ℕ) (buf before k rest : Bytes)
    → buf ≡ before ++ (k ++ rest)
    → region addr buf (length before) (length k)
      ≡ some (record { addr = addr + length before; bytes = k })
unfolding region
region_lem addr buf before k rest e = rw (slice_item buf before k rest e, region) refl
