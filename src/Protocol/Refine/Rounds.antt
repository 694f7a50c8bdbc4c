-- ===== src/Protocol/Refine/Rounds.antt =====
-- One round of the parsing loop, on the bytes of the buffer.
use raptor_lite.Common.{
  ℕ, zero, suc, ◌-◌, ◌≤◌, ◌≡◌, refl, sym, ap, ◌∙◌, inl, inr, some, List, arith, leb, ltb,
  if◌then◌else◌, length, take, drop, take_all, length-take, min, take-take, Bool-cases,
  le_of_not_ltb,
}
use raptor_lite.Common.Int.{ℤ, pos, negsuc}
use raptor_lite.Slice.{Slice, size, to_string, pop_back}
use raptor_lite.Slice.Bytes.{IsValid, length-to_string}
use raptor_lite.Slice.Pops.{pop_back-to_string}
use raptor_lite.SliceBuffer.{SliceBuffer, merge}
use raptor_lite.SliceBuffer.Contents.{contents, IsBuffer, merge-contents}
use raptor_lite.SliceBuffer.Header.{get_header-enough, move_header-Moved}
use raptor_lite.Protocol.{
  read_slice_from_recv_buffer, Round, done, bad_packet, packet, cut_packet, deliver_cut, deliver,
  judge, parse_round,
}

-- The round delivers the first `n` bytes and leaves the others.
abbrev pub Delivered : ℕ → SliceBuffer → Round → Type 0
Delivered n b r =
    (p : Slice) × (rest : SliceBuffer) × (r ≡ packet p rest)
    × IsValid p
    × IsBuffer rest
    × (to_string p ≡ take n (contents b))
    × (contents rest ≡ drop n (contents b))

-- What a round does after an answer of the check.
abbrev pub RoundOf : SliceBuffer → ℤ → Round → Type 0
RoundOf b (negsuc n) r = r ≡ bad_packet
RoundOf b (pos zero) r = if leb b.len 1024 then r ≡ done else Delivered 0 b r
RoundOf b (pos (suc n)) r = if leb (suc n) b.len then Delivered (suc n) b r else r ≡ done

-- The slice that the check is shown: the first 1024 bytes.
read_lem :
    (b : SliceBuffer)
    → IsBuffer b
    → (s : Slice) × (read_slice_from_recv_buffer b 1024 ≡ some (s, leb b.len 1024))
      × IsValid s
      × (to_string s ≡ take 1024 (contents b))
unfolding read_slice_from_recv_buffer
read_lem b v = elim (Bool-cases (leb b.len 1024)) [
  | inl all ↦ rw all (
      let (w, e) = merge-contents b v in
      (merge b, refl, w, e ∙ sym (take_all 1024 (contents b) (ground (arith, v.counted)))))
  | inr more ↦
      rw more (let (s, e, w, c) = get_header-enough b 1024 v (ground arith) in (s, rw e, w, c))
]

cut_packet_lem :
    (b : SliceBuffer) (s : Slice) (n : ℕ)
    → IsBuffer b
    → IsValid s
    → to_string s ≡ take 1024 (contents b)
    → n ≤ b.len
    → (p : Slice) × (cut_packet b s n ≡ some p) × IsValid p × (to_string p ≡ take n (contents b))
unfolding cut_packet
cut_packet_lem b s n v w e h = elim (Bool-cases (ltb (size s) n)) [
  | inl short ↦ rw short (get_header-enough b n v h)
  | inr long ↦ rw long (
      let z : length (to_string s) ≡ size s = length-to_string w in
      let (w', c) = pop_back-to_string s (size s - n) w in
      let shown : length (take 1024 (contents b)) ≡ min 1024 (length (contents b)) =
        length-take 1024 (contents b) in
      let fits : n ≤ size s = le_of_not_ltb (size s) n long in
      let left : size s - (size s - n) ≡ n = omega arith in
      let small : n ≤ 1024 = omega (arith, ap length e) in
      (pop_back s (size s - n), refl, w', c ∙ rw (left, e) (take-take n 1024 (contents b) small)))
]

deliver_lem :
    (b : SliceBuffer) (s : Slice) (n : ℕ)
    → IsBuffer b
    → IsValid s
    → to_string s ≡ take 1024 (contents b)
    → n ≤ b.len
    → Delivered n b (deliver b s n)
unfolding deliver
deliver_lem b s n v w e h =
    let (p, cut, w', c) = cut_packet_lem b s n v w e h in
    let (rest, moved, v', d) = move_header-Moved b n v h in
    (p, rest, rw (cut, deliver_cut) (rw (moved, deliver_cut)), w', v', c, d)

module _ (check : List ℕ → ℤ) where
  judge_lem :
      (b : SliceBuffer) (s : Slice) (z : ℤ)
      → IsBuffer b
      → IsValid s
      → to_string s ≡ take 1024 (contents b)
      → RoundOf b z (judge check b s (leb b.len 1024) z)
  unfolding judge
  judge_lem b s (negsuc n) v w e = refl
  judge_lem b s (pos zero) v w e = elim (Bool-cases (leb b.len 1024)) [
    | inl all ↦ rw all refl
    | inr more ↦ rw more (deliver_lem b s 0 v w e (omega arith))
  ]
  judge_lem b s (pos (suc n)) v w e = elim (Bool-cases (leb (suc n) b.len)) [
    | inl enough ↦ rw enough (deliver_lem b s (suc n) v w e (ground arith))
    | inr short ↦ rw short refl
  ]

  -- A round follows the answer that the check gives for the first 1024 bytes.
  pub parse_round_lem :
      (b : SliceBuffer)
      → IsBuffer b
      → RoundOf b (check (take 1024 (contents b))) (parse_round check b)
  unfolding parse_round
  parse_round_lem b v =
      let (s, e, w, c) = read_lem b v in
      rw (e, parse_round) (rw c (judge_lem b s (check (take 1024 (contents b))) v w c))
