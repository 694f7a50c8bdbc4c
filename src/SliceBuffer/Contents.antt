-- ===== src/SliceBuffer/Contents.antt =====
-- The operations of a slice buffer on the byte string that it stands for.
use raptor_lite.Common.{
  ◌==◌, not_zero, some, suc, false, get_elem?, ℕ, ◌+◌, ◌^◌, ◌<◌, ◌≡◌, refl, sym, ap, ◌∙◌, inl, inr,
  List, [], ◌∷◌, ◌++◌, arith, ltb, length, take, length-append, take_all, append-nil, append_assoc,
  Bool-cases,
}
use raptor_lite.Slice.{Slice, size, to_string, make_slice_by_length, fill}
use raptor_lite.Slice.Bytes.{
  IsValid, length-to_string, empty_slice-IsValid, make_slice_by_length-IsValid, fill-to_string,
}
use raptor_lite.Slice.Build.{to_string-empty_slice}
use raptor_lite.SliceBuffer.{
  front, is_empty, vector_empty, SliceBuffer, buffer, empty_buffer, add_slice, merge_loop,
  merge_slices, merge,
}

abbrev pub all_bytes : List Slice → List ℕ
all_bytes [] = []
all_bytes (s ∷ vs) = to_string s ++ all_bytes vs

-- The byte string that a buffer stands for.
abbrev pub contents : SliceBuffer → List ℕ
contents b = all_bytes b.vs

abbrev pub AllValid : List Slice → Type 0
AllValid [] = Unit {0}
AllValid (s ∷ vs) = IsValid s × AllValid vs

-- Every slice is valid, and `_length` is the number of bytes, which fits `size_t`.
pub record IsBuffer (b : SliceBuffer) : Type 0 where
  pub slices : AllValid b.vs
  pub counted : b.len ≡ length (contents b)
  pub fits : b.len < 2 ^ 64

pub all_bytes-append : (vs ws : List Slice) → all_bytes (vs ++ ws) ≡ all_bytes vs ++ all_bytes ws
all_bytes-append [] ws = refl
all_bytes-append (s ∷ vs) ws =
    ap (◌++◌ (to_string s)) (all_bytes-append vs ws)
    ∙ sym (append_assoc (to_string s) (all_bytes vs) (all_bytes ws))

AllValid-append : (vs ws : List Slice) → AllValid vs → AllValid ws → AllValid (vs ++ ws)
AllValid-append [] ws v w = w
AllValid-append (s ∷ vs) ws v w = (v.0, AllValid-append vs ws v.1 w)

pub empty_buffer-IsBuffer : IsBuffer empty_buffer
empty_buffer-IsBuffer = record { slices = tt; counted = refl; fits = omega arith }

-- `AddSlice` appends the bytes of the slice, as long as the total fits `size_t`.
pub add_slice-contents :
    (b : SliceBuffer) (s : Slice)
    → IsBuffer b
    → IsValid s
    → b.len + size s < 2 ^ 64
    → IsBuffer (add_slice b s) × (contents (add_slice b s) ≡ contents b ++ to_string s)
unfolding add_slice
add_slice-contents b s v w h =
    let joined : all_bytes (b.vs ++ s ∷ []) ≡ contents b ++ to_string s =
      all_bytes-append b.vs (s ∷ []) ∙ ap (◌++◌ (contents b)) (append-nil (to_string s)) in
    (
      record {
        slices = AllValid-append b.vs (s ∷ []) v.slices (w, tt);
        counted = rw joined (
            omega (arith, v.counted, length-append (contents b) (to_string s), length-to_string w));
        fits = omega arith;
      },
      joined,
    )

pub eq-nil : (xs : List ℕ) → length xs ≡ 0 → xs ≡ []
eq-nil [] e = refl
eq-nil (x ∷ xs) e = absurd (omega arith)

-- After `pos` bytes are in place, the loop of `Merge` puts the rest behind them.
merge_loop-bytes :
    (vs : List Slice) (pos : ℕ) (ret : Slice)
    → AllValid vs
    → IsValid ret
    → pos + length (all_bytes vs) ≡ size ret
    → IsValid (merge_loop vs pos ret)
      × (to_string (merge_loop vs pos ret) ≡ take pos (to_string ret) ++ all_bytes vs)
unfolding merge_loop
merge_loop-bytes [] pos ret v w e = (
  w,
  sym (
      append-nil (take pos (to_string ret))
      ∙ take_all pos (to_string ret) (omega (arith, length-to_string w))),
)
merge_loop-bytes (s ∷ vs) pos ret v w e =
    let z : length (to_string s) ≡ size s = length-to_string v.0 in
    let room : pos + (size s + length (all_bytes vs)) ≡ size ret =
      omega (arith, length-append (to_string s) (all_bytes vs)) in
    elim (Bool-cases (ltb 0 (size s))) [
      | inl some_bytes ↦ rw some_bytes (
          let (w', z', b) = fill-to_string pos (to_string s) w (omega arith) in
          let (w'', c) =
            merge_loop-bytes vs (pos + size s) (fill ret pos (to_string s)) v.1 w' (omega arith) in
          (
            w'',
            c
                ∙ ap (λ (t : List ℕ). t ++ all_bytes vs)
                    (ap (λ (k : ℕ). take (pos + k) (to_string (fill ret pos (to_string s)))) (sym z)
                      ∙ b)
                ∙ append_assoc (take pos (to_string ret)) (to_string s) (all_bytes vs),
          ))
      | inr no_bytes ↦ rw no_bytes (
          let bare : to_string s ≡ [] = eq-nil (to_string s) (ground arith) in
          rw bare (merge_loop-bytes vs pos ret v.1 w (ground arith)))
    ]

merge_slices-contents :
    (vs : List Slice) (len : ℕ)
    → IsBuffer (buffer vs len)
    → IsValid (merge_slices vs len) × (to_string (merge_slices vs len) ≡ all_bytes vs)
unfolding merge_slices
merge_slices-contents [] len v = (empty_slice-IsValid, to_string-empty_slice)
merge_slices-contents (s ∷ []) len v = (v.slices.0, sym (append-nil (to_string s)))
merge_slices-contents (s ∷ t ∷ vs) len v =
    let (fresh, room) = make_slice_by_length-IsValid len v.fits in
    merge_loop-bytes (s ∷ t ∷ vs) 0 (make_slice_by_length len) v.slices fresh
      (omega (arith, v.counted, room))

-- `Merge` gives one slice that holds all the bytes of the buffer.
pub merge-contents :
    (b : SliceBuffer) → IsBuffer b → IsValid (merge b) × (to_string (merge b) ≡ contents b)
unfolding merge
merge-contents b v = merge_slices-contents b.vs b.len v

pub front-cons : (s : Slice) (vs : List Slice) (n : ℕ) → front (buffer (s ∷ vs) n) ≡ some s
unfolding front
front-cons s vs n = refl

pub is_empty-length : (b : SliceBuffer) → is_empty b ≡ (length b.vs == 0)
unfolding is_empty
is_empty-length b = by_vector b.vs
  where
    by_vector : (vs : List Slice) → vector_empty vs ≡ (length vs == 0)
    by_vector [] = refl
    by_vector (s ∷ vs) = sym (not_zero (suc (length vs)) (omega arith))

pub vs-add_slice : (b : SliceBuffer) (s : Slice) → (add_slice b s).vs ≡ b.vs ++ (s ∷ [])
unfolding add_slice
vs-add_slice b s = refl

pub front_of_cons :
    (b : SliceBuffer) (s : Slice) (vs : List Slice) → b.vs ≡ s ∷ vs → front b ≡ some s
unfolding front
front_of_cons b s vs e = ap (λ (l : List Slice). get_elem? l 0) e

pub is_empty_of_cons :
    (b : SliceBuffer) (s : Slice) (vs : List Slice) → b.vs ≡ s ∷ vs → is_empty b ≡ false
unfolding is_empty vector_empty
is_empty_of_cons b s vs e = ap vector_empty e
