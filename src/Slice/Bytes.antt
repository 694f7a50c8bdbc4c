-- ===== src/Slice/Bytes.antt =====
-- Which slices are well formed, and what writes do to the bytes of a fresh one.
use raptor_lite.Common.{
  ℕ, ◌+◌, ◌-◌, ◌^◌, ◌≤◌, ◌<◌, ◌≡◌, refl, sym, ap, ◌∙◌, inl, inr, List, ◌++◌, arith, leb, length,
  take, drop, length-append, length-take, length-drop, length-replicate, take_all, take-append,
  drop-append, drop-take, take-append_past, drop-drop, take-take, Bool-cases,
}
use raptor_lite.Slice.{
  Slice, inlined, refcounted, uninit, memcpy, empty_slice, size, to_string, make_slice_by_length,
  fill,
}

-- The inline array has its size, and a window lies inside its block.
pub data IsValid : Slice → Type 0 where
  small : {len : ℕ} {bytes : List ℕ} → length bytes ≡ 23 → len ≤ 23 → IsValid (inlined len bytes)
  window :
      {block : List ℕ} {offset len : ℕ}
      → offset + len ≤ length block
      → length block < 2 ^ 64
      → IsValid (refcounted block offset len)

pub length-uninit : (n : ℕ) → length (uninit n) ≡ n
unfolding uninit
length-uninit n = length-replicate n 0

pub length-memcpy :
    (buf : List ℕ) (pos : ℕ) (src : List ℕ)
    → pos + length src ≤ length buf
    → length (memcpy buf pos src) ≡ length buf
unfolding memcpy
length-memcpy buf pos src h = omega (
  arith,
  length-append (take pos buf) (src ++ drop (pos + length src) buf),
  length-append src (drop (pos + length src) buf),
  length-take pos buf,
  length-drop (pos + length src) buf,
)

-- What stands before the end of the bytes that `memcpy` wrote.
pub take-memcpy :
    (buf : List ℕ) (pos : ℕ) (src : List ℕ)
    → pos + length src ≤ length buf
    → take (pos + length src) (memcpy buf pos src) ≡ take pos buf ++ src
unfolding memcpy
take-memcpy buf pos src h =
    let cut : length (take pos buf) ≡ pos = omega (arith, length-take pos buf) in
    let left : pos + length src - length (take pos buf) ≡ length src = omega arith in
    take-append_past (pos + length src) (take pos buf) (src ++ drop (pos + length src) buf)
      (omega arith)
    ∙ rw left (
        ap (◌++◌ (take pos buf))
          (take-append (length src) src _ (omega arith) ∙ take_all (length src) src (omega arith)))

-- A write behind the start of a window is a write into the window.
drop-memcpy :
    (buf : List ℕ) (o pos : ℕ) (src : List ℕ)
    → o + pos ≤ length buf
    → drop o (memcpy buf (o + pos) src) ≡ memcpy (drop o buf) pos src
unfolding memcpy
drop-memcpy buf o pos src h =
    let left : o + pos - o ≡ pos = omega arith in
    let reach : o ≤ length (take (o + pos) buf) = omega (arith, length-take (o + pos) buf) in
    let tail : drop (pos + length src) (drop o buf) ≡ drop (o + pos + length src) buf =
      drop-drop (pos + length src) o buf
      ∙ ap (λ (k : ℕ). drop k buf) {x = o + (pos + length src)} {y = o + pos + length src}
          (omega arith) in
    drop-append o (take (o + pos) buf) _ reach ∙ rw (drop-take o (o + pos) buf, left, tail) refl

pub empty_slice-IsValid : IsValid empty_slice
empty_slice-IsValid = small refl (omega arith)

pub size-lt : {s : Slice} → IsValid s → size s < 2 ^ 64
unfolding size
size-lt (small e h) = omega arith
size-lt (window h k) = omega arith

-- A valid slice has as many bytes as its size says.
pub length-to_string : {s : Slice} → IsValid s → length (to_string s) ≡ size s
unfolding to_string
length-to_string (small {len} {bytes} e h) = omega (arith, length-take len bytes)
length-to_string (window {block} {offset} {len} h k) =
    omega (arith, length-take len (drop offset block), length-drop offset block)

pub make_slice_by_length-IsValid :
    (len : ℕ)
    → len < 2 ^ 64
    → IsValid (make_slice_by_length len) × (size (make_slice_by_length len) ≡ len)
unfolding make_slice_by_length size
make_slice_by_length-IsValid len h = elim (Bool-cases (leb len 23)) [
  | inl e ↦ rw e (small refl (ground arith), ground arith)
  | inr e ↦
      rw e (window (omega (arith, length-uninit len)) (omega (arith, length-uninit len)), refl)
]

-- Filling a valid slice from `pos` on with bytes that fit keeps it valid and keeps its size; up to
-- the end of what was written it holds its old bytes before `pos`, then the new ones.
pub fill-to_string :
    {s : Slice} (pos : ℕ) (src : List ℕ)
    → IsValid s
    → pos + length src ≤ size s
    → IsValid (fill s pos src)
      × (size (fill s pos src) ≡ size s)
      × (take (pos + length src) (to_string (fill s pos src)) ≡ take pos (to_string s) ++ src)
unfolding fill size to_string
fill-to_string pos src (small {len} {bytes} e h) fits = (
  small (length-memcpy bytes pos src (omega arith) ∙ e) h,
  refl,
  take-take (pos + length src) len _ fits
      ∙ take-memcpy bytes pos src (omega arith)
      ∙ ap (λ (t : List ℕ). t ++ src) (sym (take-take pos len bytes (omega arith))),
)
fill-to_string pos src (window {block} {offset} {len} h k) fits =
    let same : length (memcpy block (offset + pos) src) ≡ length block =
      length-memcpy block (offset + pos) src (omega arith) in
    (
      window (omega arith) (omega arith),
      refl,
      take-take (pos + length src) len _ fits
          ∙ rw (drop-memcpy block offset pos src (omega arith))
              (take-memcpy (drop offset block) pos src (omega (arith, length-drop offset block)))
          ∙ ap (λ (t : List ℕ). t ++ src)
              (sym (take-take pos len (drop offset block) (omega arith))),
    )

-- A fresh slice that is filled from its start to its end holds what was copied into it.
pub filled-to_string :
    {s : Slice} (src : List ℕ)
    → IsValid s
    → length src ≡ size s
    → IsValid (fill s 0 src) × (to_string (fill s 0 src) ≡ src)
filled-to_string {s} src v e =
    let (v', z, b) = fill-to_string 0 src v (omega arith) in
    (v', sym (take_all (0 + length src) _ (omega (arith, length-to_string v'))) ∙ b)
