-- ===== src/SliceBuffer/Header.antt =====
-- `GetHeader` and `MoveHeader`: reading and dropping a prefix of the byte string.
use raptor_lite.Common.{
  ℕ, ◌+◌, ◌-◌, ◌≤◌, ◌<◌, min, ◌≡◌, refl, sym, ap, ◌∙◌, inl, inr, Bool, true, false, Option, some,
  List, [], ◌∷◌, ◌++◌, arith, ltb, ◌==◌, if◌then◌else◌, length, take, drop, length-append,
  length-take, length-drop, take_all, drop_all, take-append_split, drop-append, drop-append_past,
  append-nil, append_assoc, Bool-cases,
}
use raptor_lite.Words.{sub64}
use raptor_lite.Slice.{Slice, empty_slice, size, to_string, pop_front, make_slice_by_length, fill}
use raptor_lite.Slice.Bytes.{
  IsValid, length-to_string, empty_slice-IsValid, make_slice_by_length-IsValid, fill-to_string,
}
use raptor_lite.Slice.Build.{to_string-empty_slice}
use raptor_lite.Slice.Pops.{pop_front-to_string}
use raptor_lite.SliceBuffer.{
  SliceBuffer, buffer, copy_loop, copy_to_buffer, get_header, move_from, move_header,
}
use raptor_lite.SliceBuffer.Contents.{all_bytes, contents, AllValid, IsBuffer}

copy_loop-bytes :
    (vs : List Slice) (left pos : ℕ) (dst : Slice)
    → AllValid vs
    → IsValid dst
    → left ≤ length (all_bytes vs)
    → pos + left ≡ size dst
    → let (s, end) = copy_loop vs left pos dst in
      IsValid s
      × (to_string s ≡ take pos (to_string dst) ++ take left (all_bytes vs))
      × (end ≡ pos + left)
unfolding copy_loop
copy_loop-bytes [] left pos dst v w h e =
    let none_left : left ≡ 0 = omega arith in
    (
      w,
      rw none_left (
          sym (
            append-nil (take pos (to_string dst))
            ∙ take_all pos (to_string dst) (omega (arith, length-to_string w)))),
      omega arith,
    )
copy_loop-bytes (s ∷ vs) left pos dst v w h e = elim (Bool-cases (left == 0)) [
  | inl none_left ↦ rw none_left (
      let zero_left : left ≡ 0 = ground arith in
      (
        w,
        rw zero_left (
            sym (
              append-nil (take pos (to_string dst))
              ∙ take_all pos (to_string dst) (omega (arith, length-to_string w)))),
        omega arith,
      ))
  | inr some_left ↦ rw some_left (
      let z : length (to_string s) ≡ size s = length-to_string v.0 in
      let src : List ℕ = take (min left (size s)) (to_string s) in
      let cut : length src ≡ min left (size s) =
        omega (arith, length-take (min left (size s)) (to_string s)) in
      let all : length (all_bytes (s ∷ vs)) ≡ size s + length (all_bytes vs) =
        omega (arith, length-append (to_string s) (all_bytes vs)) in
      let (w', z', b) = fill-to_string pos src w (omega arith) in
      let (w'', c, end) =
        copy_loop-bytes vs (left - min left (size s)) (pos + min left (size s)) (fill dst pos src)
          v.1 w' (omega arith) (omega arith) in
      (
        w'',
        c
            ∙ ap (λ (t : List ℕ). t ++ take (left - min left (size s)) (all_bytes vs))
                (ap (λ (k : ℕ). take (pos + k) (to_string (fill dst pos src))) (sym cut) ∙ b)
            ∙ append_assoc (take pos (to_string dst)) src
                (take (left - min left (size s)) (all_bytes vs))
            ∙ ap (◌++◌ (take pos (to_string dst))) (
                ap
                  (λ (k : ℕ).
                    take (min left k) (to_string s) ++ take (left - min left k) (all_bytes vs))
                  (sym z)
                ∙ sym (take-append_split left (to_string s) (all_bytes vs))),
        omega arith,
      ))
]

-- `GetHeader` gives the first `n` bytes if the buffer has as many, and the empty slice if not; its
-- assertion does not fail.
pub get_header-contents :
    (b : SliceBuffer) (n : ℕ)
    → IsBuffer b
    → (s : Slice) × (get_header b n ≡ some s)
      × IsValid s
      × (to_string s ≡ (if ltb b.len n then [] else take n (contents b)))
unfolding get_header copy_to_buffer
get_header-contents b n v = elim (Bool-cases (n == 0)) [
  | inl none_asked ↦ rw none_asked (
      let zero_asked : n ≡ 0 = ground arith in
      (
        empty_slice,
        refl,
        empty_slice-IsValid,
        to_string-empty_slice ∙ rw zero_asked (ground arith),
      ))
  | inr some_asked ↦ rw some_asked (elim (Bool-cases (ltb b.len n)) [
    | inl short ↦ rw short (empty_slice, refl, empty_slice-IsValid, to_string-empty_slice)
    | inr enough ↦ rw enough (
        let le : n ≤ b.len = ground arith in
        let (fresh, room) = make_slice_by_length-IsValid n (omega (arith, v.fits)) in
        let (w, c, end) =
          copy_loop-bytes b.vs n 0 (make_slice_by_length n) v.slices fresh
            (omega (arith, v.counted)) (omega arith) in
        ((copy_loop b.vs n 0 (make_slice_by_length n)).0, refl, w, c))
  ])
]

-- A move that succeeds, and leaves a buffer that stands for `xs`.
abbrev pub Moved : List ℕ → Option (Bool × SliceBuffer) → Type 0
Moved xs r = (b : SliceBuffer) × (r ≡ some (true, b)) × IsBuffer b × (contents b ≡ xs)

cut_first :
    (s : Slice) (vs : List Slice) (total n : ℕ)
    → IsBuffer (buffer (s ∷ vs) total)
    → total ≡ size s + length (all_bytes vs)
    → n < size s
    → Moved
        (drop n (to_string s ++ all_bytes vs))
        (some (true, buffer (pop_front s n ∷ vs) (sub64 total n)))
cut_first s vs total n v all lt =
    let (w, b) = pop_front-to_string s n v.slices.0 in
    let z : length (to_string s) ≡ size s = length-to_string v.slices.0 in
    (
      buffer (pop_front s n ∷ vs) (sub64 total n),
      refl,
      record {
        slices = (w, v.slices.1);
        counted = omega (
          arith,
          v.fits,
          ap length b,
          length-drop n (to_string s),
          length-append (to_string (pop_front s n)) (all_bytes vs),
        );
        fits = omega (arith, v.fits);
      },
      ap (λ (t : List ℕ). t ++ all_bytes vs) b
          ∙ sym (drop-append n (to_string s) (all_bytes vs) (omega arith)),
    )

move_from-contents :
    (vs : List Slice) (total n : ℕ)
    → IsBuffer (buffer vs total)
    → n ≤ total
    → Moved (drop n (all_bytes vs)) (move_from vs total n)
unfolding move_from
move_from-contents [] total n v h =
    let not_short : ltb total n ≡ false = ground arith in
    let none_asked : (n == 0) ≡ true = ground (arith, v.counted) in
    rw (not_short, none_asked) (buffer [] total, refl, v, sym (drop_all n [] (omega arith)))
move_from-contents (s ∷ vs) total n v h =
    let not_short : ltb total n ≡ false = ground arith in
    let z : length (to_string s) ≡ size s = length-to_string v.slices.0 in
    let all : total ≡ size s + length (all_bytes vs) =
      omega (arith, v.counted, length-append (to_string s) (all_bytes vs)) in
    let rest : IsBuffer (buffer vs (sub64 total (size s))) = record {
      slices = v.slices.1;
      counted = omega (arith, v.fits);
      fits = omega arith;
    } in
    rw not_short (elim (Bool-cases (n == 0)) [
      | inl none_asked ↦ rw none_asked (
        buffer (s ∷ vs) total,
        refl,
        v,
        ap (λ (k : ℕ). drop k (to_string s ++ all_bytes vs)) {x = 0} {y = n} (ground arith),
      )
      | inr some_asked ↦ rw some_asked (elim (Bool-cases (ltb n (size s))) [
        | inl inside ↦ rw inside (cut_first s vs total n v all (ground arith))
        | inr beyond ↦ rw beyond (elim (Bool-cases (size s == n)) [
          | inl exact ↦ rw exact (
            buffer vs (sub64 total n),
            refl,
            rw (same n exact) at rest,
            sym (
                drop-append_past n (to_string s) (all_bytes vs) (ground arith)
                ∙ ap (λ (k : ℕ). drop k (all_bytes vs)) {x = n - length (to_string s)} {y = 0}
                    (ground arith)),
          )
          | inr more ↦ rw more (
              let left : sub64 n (size s) ≡ n - length (to_string s) = ground (arith, v.fits) in
              let (b, e, w, c) =
                move_from-contents vs (sub64 total (size s)) (sub64 n (size s)) rest
                  (ground (arith, v.fits)) in
              (
                b,
                e,
                w,
                c
                    ∙ ap (λ (k : ℕ). drop k (all_bytes vs)) left
                    ∙ sym (drop-append_past n (to_string s) (all_bytes vs) (ground arith)),
              ))
        ])
      ])
    ])
  where
    same : (n : ℕ) → (size s == n) ≡ true → size s ≡ n
    same n e = ground arith

move_from_short :
    (vs : List Slice) (total n : ℕ)
    → ltb total n ≡ true
    → move_from vs total n ≡ some (false, buffer vs total)
unfolding move_from
move_from_short [] total n e = rw e refl
move_from_short (s ∷ vs) total n e = rw e refl

-- `MoveHeader` drops the first `n` bytes and says so if the buffer has as many; otherwise it says
-- that it did not, and changes nothing. It never reads the front of an empty vector.
pub move_header-contents :
    (b : SliceBuffer) (n : ℕ)
    → IsBuffer b
    → (if ltb b.len n
        then move_header b n ≡ some (false, b)
        else Moved (drop n (contents b)) (move_header b n))
unfolding move_header
move_header-contents b n v = elim (Bool-cases (ltb b.len n)) [
  | inl short ↦ rw short (move_from_short b.vs b.len n short)
  | inr enough ↦ rw enough (move_from-contents b.vs b.len n v (ground arith))
]

pub move_header-Moved :
    (b : SliceBuffer) (n : ℕ)
    → IsBuffer b
    → n ≤ b.len
    → Moved (drop n (contents b)) (move_header b n)
unfolding move_header
move_header-Moved b n v h = move_from-contents b.vs b.len n v h

pub get_header-enough :
    (b : SliceBuffer) (n : ℕ)
    → IsBuffer b
    → n ≤ b.len
    → (s : Slice) × (get_header b n ≡ some s) × IsValid s × (to_string s ≡ take n (contents b))
get_header-enough b n v h =
    let (s, e, w, c) = get_header-contents b n v in
    let enough : ltb b.len n ≡ false = ground arith in (s, e, w, rw enough at c)
