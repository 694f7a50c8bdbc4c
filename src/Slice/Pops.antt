-- ===== src/Slice/Pops.antt =====
-- What `PopBack` and `PopFront` do to the bytes of a slice.
use raptor_lite.Common.{
  ℕ, ◌+◌, ◌-◌, ◌%◌, ◌^◌, ◌≤◌, ◌<◌, ◌≡◌, sym, ap, ◌∙◌, inl, inr, arith, ltb, ◌==◌, if◌then◌else◌,
  length, take, drop, length-take, length-drop, take_all, drop_all, drop-take, drop-drop, take-take,
  Bool-cases,
}
use raptor_lite.Words.{u64}
use raptor_lite.Slice.{
  Slice, memcpy, size, to_string, pop_back, shrink_back, pop_front, shrink_front,
}
use raptor_lite.Slice.Bytes.{IsValid, length-memcpy, take-memcpy, length-to_string, small, window}

-- The length after a pop stays a number of the field's own width.
shrink_back-to_string :
    {s : Slice} (n : ℕ)
    → IsValid s
    → n ≤ size s
    → IsValid (shrink_back s n) × (to_string (shrink_back s n) ≡ take (size s - n) (to_string s))
unfolding shrink_back size to_string
shrink_back-to_string n (small {len} {bytes} e h) le =
    let left : (len + 2 ^ 8 - n % 2 ^ 8) % 2 ^ 8 ≡ len - n = omega arith in
    (small e (omega arith), rw (left, take-take (len - n) len bytes (omega arith)))
shrink_back-to_string n (window {block} {offset} {len} h k) le =
    let left : u64 (len + 2 ^ 64 - n) ≡ len - n = omega arith in
    (window (omega arith) k, rw (left, take-take (len - n) len (drop offset block) (omega arith)))

shrink_front-to_string :
    {s : Slice} (n : ℕ)
    → IsValid s
    → n ≤ size s
    → IsValid (shrink_front s n) × (to_string (shrink_front s n) ≡ drop n (to_string s))
unfolding shrink_front size to_string
shrink_front-to_string n (small {len} {bytes} e h) le =
    let left : (len + 2 ^ 8 - n % 2 ^ 8) % 2 ^ 8 ≡ len - n = omega arith in
    let moved : length (take (len - n) (drop n bytes)) ≡ len - n =
      omega (arith, length-take (len - n) (drop n bytes), length-drop n bytes) in
    rw left (
      small (length-memcpy bytes 0 (take (len - n) (drop n bytes)) (omega arith) ∙ e) (omega arith),
      ap (λ (k : ℕ). take k (memcpy bytes 0 (take (len - n) (drop n bytes)))) {x = len - n}
            {y = 0 + length (take (len - n) (drop n bytes))} (omega arith)
          ∙ take-memcpy bytes 0 (take (len - n) (drop n bytes)) (omega arith)
          ∙ sym (drop-take n len bytes),
    )
shrink_front-to_string n (window {block} {offset} {len} h k) le =
    let left : u64 (len + 2 ^ 64 - n) ≡ len - n = omega arith in
    (
      window (omega arith) k,
      rw (left, drop-take n len (drop offset block), drop-drop n offset block),
    )

-- The amount that a pop removes is cut to the size.
cut_pop :
    (P : Slice → Type 0) (s : Slice) (n : ℕ) (shrink : Slice → ℕ → Slice)
    → (n ≡ 0 → P s)
    → (size s < n → P (shrink s (size s)))
    → (n ≤ size s → P (shrink s n))
    → P (if n == 0 then s else shrink s (if ltb (size s) n then size s else n))
cut_pop P s n shrink none_left all some_left = elim (Bool-cases (n == 0)) [
  | inl e ↦ rw e (none_left (ground arith))
  | inr e ↦ rw e (elim (Bool-cases (ltb (size s) n)) [
    | inl lt ↦ rw lt (all (ground arith))
    | inr ge ↦ rw ge (some_left (ground arith))
  ])
]

-- `PopBack` drops up to `n` bytes at the end, and all of them if there are fewer; the slice stays
-- valid.
pub pop_back-to_string :
    (s : Slice) (n : ℕ)
    → IsValid s
    → IsValid (pop_back s n) × (to_string (pop_back s n) ≡ take (size s - n) (to_string s))
unfolding pop_back
pop_back-to_string s n v =
    cut_pop (λ t. IsValid t × (to_string t ≡ take (size s - n) (to_string s))) s n shrink_back
      (λ e. (v, sym (take_all (size s - n) (to_string s) (omega (arith, length-to_string v)))))
      (λ lt.
        let (w, b) = shrink_back-to_string (size s) v (omega arith) in
        (
          w,
          b
              ∙ ap (λ (k : ℕ). take k (to_string s)) {x = size s - size s} {y = size s - n}
                  (omega arith),
        ))
      (λ le. shrink_back-to_string n v le)

-- `PopFront` drops up to `n` bytes at the start, and all of them if there are fewer; the slice
-- stays valid.
pub pop_front-to_string :
    (s : Slice) (n : ℕ)
    → IsValid s
    → IsValid (pop_front s n) × (to_string (pop_front s n) ≡ drop n (to_string s))
unfolding pop_front
pop_front-to_string s n v =
    cut_pop (λ t. IsValid t × (to_string t ≡ drop n (to_string s))) s n shrink_front
      (λ e. (v, ap (λ (k : ℕ). drop k (to_string s)) {x = 0} {y = n} (omega arith)))
      (λ lt.
        let (w, b) = shrink_front-to_string (size s) v (omega arith) in
        (
          w,
          b
              ∙ drop_all (size s) (to_string s) (omega (arith, length-to_string v))
              ∙ sym (drop_all n (to_string s) (omega (arith, length-to_string v))),
        ))
      (λ le. shrink_front-to_string n v le)
