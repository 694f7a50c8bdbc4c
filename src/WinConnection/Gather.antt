-- ===== src/WinConnection/Gather.antt =====
-- What `AsyncSend` puts into one `WSASend`.
use raptor_lite.Common.{
  ℕ, suc, ◌+◌, ◌≤◌, ◌<◌, ◌^◌, ◌≡◌, refl, sym, ap, ◌∙◌, Bool, true, false, ◌||◌, List, [], ◌∷◌, ◌++◌,
  map, arith, length, length-append, leb, ltb, inl, inr, Bool-cases,
}
use raptor_lite.Words.{u64}
use raptor_lite.Slice.{Slice, size, to_string}
use raptor_lite.Slice.Bytes.{length-to_string}
use raptor_lite.SliceBuffer.Contents.{contents, all_bytes, all_bytes-append, AllValid, IsBuffer}
use raptor_lite.SliceBuffer.{is_empty}
use raptor_lite.WinConnection.{
  Request, wsa_send, WinConnection, async_send, max_package_size, max_wsabuf_count, gather,
}

-- The bytes of the buffers of a send, in order.
abbrev pub joined : List (List ℕ) → List ℕ
joined [] = []
joined (xs ∷ xss) = xs ++ joined xss

pub joined-map : (vs : List Slice) → joined (map to_string vs) ≡ all_bytes vs
joined-map [] = refl
joined-map (s ∷ vs) = ap (◌++◌ (to_string s)) (joined-map vs)

-- The slices that are gathered are the first ones.
pub gather_first :
    (counter prepared : ℕ) (vs : List Slice)
    → (rest : List Slice) × (gather counter prepared vs ++ rest ≡ vs)
unfolding gather
gather_first counter prepared [] = ([], refl)
gather_first counter prepared (s ∷ vs) =
    let (rest, e) = gather_first (suc counter) (u64 (prepared + size s)) vs in
    elim (Bool-cases (leb max_wsabuf_count counter)) [
      | inl many ↦ (s ∷ vs, rw many refl)
      | inr few ↦ elim (Bool-cases (ltb max_package_size (u64 (prepared + size s)))) [
        | inl large ↦ (s ∷ vs, rw (few, large) refl)
        | inr small ↦ (rest, rw (few, small) (ap (◌∷◌ s) e))
      ]
    ]

-- They are at most 16, and they have at most 65535 bytes.
pub gather_bounds :
    (counter prepared : ℕ) (vs : List Slice)
    → AllValid vs
    → counter ≤ 16
    → prepared ≤ 65535
    → length (all_bytes vs) + 65535 < 2 ^ 64
    → (counter + length (gather counter prepared vs) ≤ 16)
      × (prepared + length (all_bytes (gather counter prepared vs)) ≤ 65535)
unfolding gather
gather_bounds counter prepared [] v c p h = (omega arith, omega arith)
gather_bounds counter prepared (s ∷ vs) v c p h =
    let z : length (to_string s) ≡ size s = length-to_string v.0 in
    let split = length-append (to_string s) (all_bytes vs) in
    let whole : u64 (prepared + size s) ≡ prepared + size s = omega (arith, z, split, h) in
    elim (Bool-cases (leb max_wsabuf_count counter)) [
      | inl many ↦ rw many (omega arith, omega arith)
      | inr few ↦ elim (Bool-cases (ltb max_package_size (u64 (prepared + size s)))) [
        | inl large ↦ rw (few, large) (omega arith, omega arith)
        | inr small ↦
            let (n, b) =
              gather_bounds (suc counter) (u64 (prepared + size s)) vs v.1 (ground arith)
                (ground arith) (omega (arith, split, h)) in
            rw (few, small)
              (
                omega arith,
                omega (
                  arith,
                  whole,
                  z,
                  b,
                  length-append (to_string s)
                      (all_bytes (gather (suc counter) (u64 (prepared + size s)) vs)),
                ),
              )
      ]
    ]

-- The requests are one send at most, of at most 16 buffers with at most 65535 bytes in all, which are
-- the first of `xs`.
abbrev pub Bounded : List ℕ → List Request → Type 0
Bounded xs [] = Unit {0}
Bounded xs (wsa_send fd buffers ∷ []) =
    (length buffers ≤ 16)
    × (length (joined buffers) ≤ 65535)
    × (rest : List ℕ) × (joined buffers ++ rest ≡ xs)
Bounded xs (r ∷ rs) = ⊥

length-map : (vs : List Slice) → length (map to_string vs) ≡ length vs
length-map [] = refl
length-map (s ∷ vs) = ap suc (length-map vs)

-- Whatever is in the send buffer, if it has fewer than 2 ^ 64 - 65535 bytes: `AsyncSend` posts one send
-- at most, of at most 16 buffers with at most 65535 bytes in all, which are the first bytes of the
-- send buffer; and none if one is pending.
pub async_send-Bounded :
    (posts : List (List ℕ) → Bool) (c : WinConnection)
    → IsBuffer c.snd_buffer
    → c.snd_buffer.len + 65535 < 2 ^ 64
    → Bounded (contents c.snd_buffer) (async_send posts c).1
      × (c.send_pending ≡ true → (async_send posts c).1 ≡ [])
unfolding async_send
async_send-Bounded posts c v room = elim (Bool-cases (is_empty c.snd_buffer || c.send_pending)) [
  | inl stays ↦ rw stays (tt, λ p. refl)
  | inr goes ↦
      let chosen : List Slice = gather 0 0 c.snd_buffer.vs in
      let (rest, e) = gather_first 0 0 c.snd_buffer.vs in
      let (n, b) =
        gather_bounds 0 0 c.snd_buffer.vs v.slices (omega arith) (omega arith)
          (omega (arith, v.counted, room)) in
      rw goes (
        (
          omega (arith, n, length-map chosen),
          omega (arith, b, ap length (joined-map chosen)),
          all_bytes rest,
          ap (λ (ys : List ℕ). ys ++ all_bytes rest) (joined-map chosen)
              ∙ sym (all_bytes-append chosen rest)
              ∙ ap all_bytes e,
        ),
        λ p. absurd (both (is_empty c.snd_buffer) c.send_pending p goes),
      )
]
  where
    both : (x y : Bool) → y ≡ true → (x || y) ≡ false → ⊥
    both true y h k = cc
    both false y h k = cc
