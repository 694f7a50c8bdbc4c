-- ===== src/Protocol/Stuck.antt =====
-- A check that wants more than 1024 bytes: the round that should read more delivers an empty packet
-- instead, and the loop never ends.
use raptor_lite.Common.{
  ℕ, zero, suc, ◌<◌, ◌≡◌, refl, ap, subst, ◌∙◌, false, List, [], ◌∷◌, arith, leb, length, take,
  not_zero, not_leb_of_lt, replicate, map,
}
use raptor_lite.Common.Int.{ℤ, pos}
use raptor_lite.Slice.{Slice, to_string}
use raptor_lite.SliceBuffer.{SliceBuffer}
use raptor_lite.SliceBuffer.Contents.{contents, IsBuffer}
use raptor_lite.Protocol.{Parsed, out_of_fuel, packet, after_round, parse_round, parsing_protocol}
use raptor_lite.Protocol.Refine.Rounds.{Delivered, RoundOf, parse_round_lem}

-- The loop is still running after `k` rounds: it has delivered `k` empty packets, and the bytes of
-- its buffer are `xs`.
abbrev pub StillRunning : ℕ → List ℕ → Parsed → Type 0
StillRunning k xs r =
    (ds : List Slice) × (b : SliceBuffer) × (r ≡ out_of_fuel ds b)
    × (map to_string ds ≡ replicate k [])
    × (contents b ≡ xs)

module _ (check : List ℕ → ℤ) where
  empty_round :
      (b : SliceBuffer)
      → IsBuffer b
      → 1024 < b.len
      → check (take 1024 (contents b)) ≡ pos 0
      → Delivered 0 b (parse_round check b)
  empty_round b v h e =
      let more : leb b.len 1024 ≡ false = not_leb_of_lt b.len 1024 h in
      let round : RoundOf b (pos 0) (parse_round check b) =
        subst (λ (z : ℤ). RoundOf b z (parse_round check b)) e (parse_round_lem check b v) in
      rw more at round

  step_on :
      (k : ℕ) (b rest : SliceBuffer) (p : Slice) (xs : List ℕ)
      → 1024 < b.len
      → parse_round check b ≡ packet p rest
      → to_string p ≡ []
      → StillRunning k xs (parsing_protocol check k rest)
      → StillRunning (suc k) xs (parsing_protocol check (suc k) b)
  unfolding parsing_protocol after_round
  step_on k b rest p xs h e c (ds, b', r, empties, left) = (
    p ∷ ds,
    b',
    rw (not_zero b.len (omega arith), e, after_round, r) refl,
    rw (c, empties) refl,
    left,
  )

  -- If the buffer holds more than 1024 bytes and the check asks for more data on the first 1024,
  -- then however long the loop runs it is not done: each round delivers an empty packet and leaves
  -- the bytes as they are.
  pub parsing_protocol-StillRunning :
      (k : ℕ) (b : SliceBuffer)
      → IsBuffer b
      → 1024 < b.len
      → check (take 1024 (contents b)) ≡ pos 0
      → StillRunning k (contents b) (parsing_protocol check k b)
  unfolding parsing_protocol
  parsing_protocol-StillRunning zero b v h e = ([], b, refl, refl, refl)
  parsing_protocol-StillRunning (suc k) b v h e =
      let (p, rest, r, w, v', c, d) = empty_round b v h e in
      let same : contents rest ≡ contents b = d in
      step_on k b rest p (contents b) h r c (
        subst (λ (xs : List ℕ). StillRunning k xs (parsing_protocol check k rest)) same
          (parsing_protocol-StillRunning k rest v'
            (omega (arith, ap length same, v.counted, v'.counted))
            (ap (λ (xs : List ℕ). check (take 1024 xs)) same ∙ e)))
