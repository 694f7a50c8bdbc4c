-- ===== src/Slice/Build.antt =====
-- The constructors of a slice that copy, its equality and its concatenation.
use raptor_lite.Common.{
  ℕ, ◌+◌, ◌%◌, ◌^◌, ◌≤◌, ◌<◌, ◌≡◌, refl, sym, ap, ◌∙◌, ◌↔◌, inl, inr, true, some, List, [], ◌∷◌,
  ◌++◌, arith, leb, ◌==◌, length, take, length-take, take_all, append-nil, Bool-cases,
}
use raptor_lite.Words.{u64}
use raptor_lite.Slice.{
  Slice, uninit, memcpy, bytes_eq, empty_slice, from_ptr, size, is_empty, to_string, equals, fill,
  concat,
}
use raptor_lite.Slice.Bytes.{
  IsValid, length-uninit, length-memcpy, take-memcpy, empty_slice-IsValid, length-to_string,
  make_slice_by_length-IsValid, fill-to_string, filled-to_string, small, window,
}

-- What was copied to the start of a fresh array is there.
filled : (buf src : List ℕ) → length src ≤ length buf → take (length src) (memcpy buf 0 src) ≡ src
filled buf src h =
    ap (λ (k : ℕ). take k (memcpy buf 0 src)) {x = length src} {y = 0 + length src} (omega arith)
    ∙ take-memcpy buf 0 src (omega arith)

-- `Slice(ptr, len)` over at least `len` readable bytes is valid and holds the first `len` of them.
pub from_ptr-to_string :
    (src : List ℕ) (len : ℕ)
    → len ≤ length src
    → len < 2 ^ 64
    → IsValid (from_ptr (some src) len) × (to_string (from_ptr (some src) len) ≡ take len src)
unfolding from_ptr to_string
from_ptr-to_string src len h k =
    let cut : length (take len src) ≡ len = omega (arith, length-take len src) in
    elim (Bool-cases (len == 0)) [
      | inl e ↦
          rw e (empty_slice-IsValid, ap (λ (n : ℕ). take n src) {x = 0} {y = len} (ground arith))
      | inr e ↦ rw e (elim (Bool-cases (leb len 23)) [
        | inl le ↦ rw le (
            let narrow : len % 2 ^ 8 ≡ length (take len src) = ground arith in
            let room : length (uninit 23) ≡ 23 = length-uninit 23 in
            let fits : length (take len src) ≤ 23 = ground arith in
            rw narrow (
              small (length-memcpy (uninit 23) 0 (take len src) (omega arith) ∙ room) fits,
              filled (uninit 23) (take len src) (omega arith),
            ))
        | inr gt ↦ rw gt (
            let room : length (uninit len) ≡ len = length-uninit len in
            let kept : length (memcpy (uninit len) 0 (take len src)) ≡ length (uninit len) =
              length-memcpy (uninit len) 0 (take len src) (omega arith) in
            (
              window (omega arith) (omega arith),
              ap (λ (n : ℕ). take n (memcpy (uninit len) 0 (take len src))) (sym cut)
                  ∙ filled (uninit len) (take len src) (omega arith),
            ))
      ])
    ]

pub bytes_eq_iff : (xs ys : List ℕ) → (bytes_eq xs ys ≡ true) ↔ (xs ≡ ys)
unfolding bytes_eq
bytes_eq_iff [] [] = ((λ h. refl), (λ h. refl))
bytes_eq_iff [] (y ∷ ys) = ((λ h. cc), (λ h. cc))
bytes_eq_iff (x ∷ xs) [] = ((λ h. cc), (λ h. cc))
bytes_eq_iff (x ∷ xs) (y ∷ ys) =
    ((λ h. ground (arith, bytes_eq_iff xs ys)), (λ h. ground (arith, bytes_eq_iff xs ys)))

to_string-empty : (s : Slice) → IsValid s → size s ≡ 0 → to_string s ≡ []
to_string-empty s v e = sym (take_all 0 (to_string s) (omega (arith, length-to_string v)))

-- `operator==` holds exactly for valid slices that hold the same bytes.
pub equals_iff :
    (a b : Slice) → IsValid a → IsValid b → (equals a b ≡ true) ↔ (to_string a ≡ to_string b)
unfolding equals is_empty
equals_iff a b v w = (
  (λ h.
      ground (
        arith,
        to_string-empty a v,
        to_string-empty b w,
        bytes_eq_iff (to_string a) (to_string b),
      )),
  (λ h. ground (
    arith,
    ap length h,
    length-to_string v,
    length-to_string w,
    bytes_eq_iff (to_string a) (to_string b),
  )),
)

pub to_string-empty_slice : to_string empty_slice ≡ []
unfolding to_string
to_string-empty_slice = refl

-- `operator+` holds the bytes of the first slice, then those of the second, if they fit `size_t`.
pub concat-to_string :
    (a b : Slice)
    → IsValid a
    → IsValid b
    → size a + size b < 2 ^ 64
    → IsValid (concat a b) × (to_string (concat a b) ≡ to_string a ++ to_string b)
unfolding concat is_empty
concat-to_string a b v w h =
    let total : u64 (size a + size b) ≡ size a + size b = omega arith in
    let (fresh, room) = make_slice_by_length-IsValid (u64 (size a + size b)) (omega arith) in
    let la : length (to_string a) ≡ size a = length-to_string v in
    let lb : length (to_string b) ≡ size b = length-to_string w in
    elim (Bool-cases (size a == 0)) [
      | inl ea ↦
          rw (ea, to_string-empty a v (ground arith))
            (elim (Bool-cases (size b == 0)) [
              | inl eb ↦
                  rw (eb, to_string-empty b w (ground arith))
                    (empty_slice-IsValid, to_string-empty_slice)
              | inr nb ↦ rw nb (filled-to_string (to_string b) fresh (ground arith))
            ])
      | inr na ↦ rw na (elim (Bool-cases (size b == 0)) [
        | inl eb ↦
            rw (eb, to_string-empty b w (ground arith), append-nil (to_string a))
              (filled-to_string (to_string a) fresh (ground arith))
        | inr nb ↦ rw nb (joined fresh (room ∙ total))
      ])
    ]
  where
    joined :
        {s : Slice}
        → IsValid s
        → size s ≡ size a + size b
        → IsValid (fill (fill s 0 (to_string a)) (size a) (to_string b))
          × (to_string (fill (fill s 0 (to_string a)) (size a) (to_string b))
              ≡ to_string a ++ to_string b)
    joined {s} f e =
        let la : length (to_string a) ≡ size a = length-to_string v in
        let lb : length (to_string b) ≡ size b = length-to_string w in
        let (f1, z1, b1) = fill-to_string 0 (to_string a) f (omega arith) in
        let (f2, z2, b2) = fill-to_string (size a) (to_string b) f1 (omega arith) in
        let first : take (size a) (to_string (fill s 0 (to_string a))) ≡ to_string a =
          ap (λ (k : ℕ). take k (to_string (fill s 0 (to_string a)))) {x = size a}
            {y = 0 + length (to_string a)} (omega arith)
          ∙ b1 in
        (
          f2,
          sym (take_all (size a + length (to_string b)) _ (omega (arith, length-to_string f2)))
              ∙ b2
              ∙ ap (λ (t : List ℕ). t ++ to_string b) first,
        )
