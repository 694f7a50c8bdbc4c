-- ===== src/Protocol/Refine.antt =====
-- Parsing the receive buffer against the framing of its bytes.
pub mod Rounds
use raptor_lite.Common.{
  ℕ, zero, suc, ◌+◌, ◌-◌, ◌≤◌, ◌<◌, ◌≡◌, ◌≢◌, refl, sym, subst, ap, ap₂, ◌∙◌, inl, inr, Bool, true,
  false, Option, none, some, List, [], ◌∷◌, ◌++◌, map, arith, leb, ltb, ◌==◌, if◌then◌else◌, length,
  take, drop, take_all, length-drop, take-append-drop, append_assoc, Bool-cases, leb→le,
  lt_of_not_leb,
}
use raptor_lite.Common.Int.{ℤ, pos, negsuc}
use raptor_lite.Slice.{Slice, to_string}
use raptor_lite.SliceBuffer.{SliceBuffer}
use raptor_lite.SliceBuffer.Contents.{all_bytes, contents, IsBuffer, eq-nil}
use raptor_lite.Protocol.{
  Parsed, parsed, protocol_error, broken, out_of_fuel, put_first, Round, done, bad_packet, packet,
  fault, after_round, parse_round, parsing_protocol,
}
use raptor_lite.Protocol.Split.{
  Frames, frames, frame_error, unfinished, frame_first, next_frame, split, split_finished,
}
use Rounds.{Delivered, RoundOf, parse_round_lem}

-- What a client sees of a parse: bytes, and no slices.
abbrev pub view : Parsed → Frames
view (parsed ds b) = frames (map to_string ds) (contents b)
view (protocol_error ds b) = frame_error (map to_string ds) (contents b)
view broken = unfinished
view (out_of_fuel ds b) = unfinished

-- The check answers from the first 1024 bytes: given more, it decides, and as it would on all.
abbrev pub DecidesEarly : (List ℕ → ℤ) → Type 0
DecidesEarly check =
    (xs : List ℕ)
    → 1024 < length xs
    → (check (take 1024 xs) ≢ pos 0) × (check (take 1024 xs) ≡ check xs)

-- No byte is lost, made up or moved, and the buffer that is left is well formed.
abbrev pub Keeps : List ℕ → Parsed → Type 0
Keeps xs (parsed ds b) = IsBuffer b × (all_bytes ds ++ contents b ≡ xs)
Keeps xs (protocol_error ds b) = IsBuffer b × (all_bytes ds ++ contents b ≡ xs)
Keeps xs broken = ⊥
Keeps xs (out_of_fuel ds b) = IsBuffer b × (all_bytes ds ++ contents b ≡ xs)

Keeps-put_first :
    (s : Slice) (r : Parsed) (xs : List ℕ) → Keeps xs r → Keeps (to_string s ++ xs) (put_first s r)
Keeps-put_first s (parsed ds b) xs k =
    (k.0, append_assoc (to_string s) (all_bytes ds) (contents b) ∙ ap (◌++◌ (to_string s)) k.1)
Keeps-put_first s (protocol_error ds b) xs k =
    (k.0, append_assoc (to_string s) (all_bytes ds) (contents b) ∙ ap (◌++◌ (to_string s)) k.1)
Keeps-put_first s broken xs k = k
Keeps-put_first s (out_of_fuel ds b) xs k =
    (k.0, append_assoc (to_string s) (all_bytes ds) (contents b) ∙ ap (◌++◌ (to_string s)) k.1)

module _ (again : SliceBuffer → Parsed) (b : SliceBuffer) (v : IsBuffer b) where
  module _ (keeps : (rest : SliceBuffer) → IsBuffer rest → Keeps (contents rest) (again rest)) where
    Delivered-Keeps :
        (n : ℕ) (r : Round) → Delivered n b r → Keeps (contents b) (after_round again b r)
    unfolding after_round
    Delivered-Keeps n r (p, rest, e, w, v', c, d) =
        rw (e, after_round)
          (subst (λ (xs : List ℕ). Keeps xs (put_first p (again rest)))
            (ap₂ ◌++◌ c d ∙ take-append-drop n (contents b))
            (Keeps-put_first p (again rest) (contents rest) (keeps rest v')))

    round-Keeps : (z : ℤ) (r : Round) → RoundOf b z r → Keeps (contents b) (after_round again b r)
    unfolding after_round
    round-Keeps (negsuc n) r e = rw (e, after_round) (v, refl)
    round-Keeps (pos zero) r e = elim (Bool-cases (leb b.len 1024)) [
      | inl all ↦ let stops : r ≡ done = rw all at e in rw (stops, after_round) (v, refl)
      | inr more ↦ Delivered-Keeps 0 r (rw more at e)
    ]
    round-Keeps (pos (suc n)) r e = elim (Bool-cases (leb (suc n) b.len)) [
      | inl enough ↦ Delivered-Keeps (suc n) r (rw enough at e)
      | inr short ↦ let stops : r ≡ done = rw short at e in rw (stops, after_round) (v, refl)
    ]

view-put_first :
    (s : Slice) (r : Parsed) → view (put_first s r) ≡ frame_first (to_string s) (view r)
view-put_first s (parsed ds b) = refl
view-put_first s (protocol_error ds b) = refl
view-put_first s broken = refl
view-put_first s (out_of_fuel ds b) = refl

module _ (again : SliceBuffer → Parsed) (frame_again : List ℕ → Frames) (b : SliceBuffer) (k : ℕ)
    (v : IsBuffer b)
    (agree : (rest : SliceBuffer)
      → IsBuffer rest
      → rest.len < k
      → view (again rest) ≡ frame_again (contents rest))
    (fuel : b.len ≤ k) where
  -- A round that delivers the first packet of the framing, when the rest agrees.
  round-split :
      (z : ℤ) (r : Round)
      → RoundOf b z r
      → (1024 < length (contents b) → z ≢ pos 0)
      → view (after_round again b r) ≡ next_frame frame_again (contents b) z
  unfolding after_round next_frame
  round-split (negsuc n) r e decided = rw (e, after_round) refl
  round-split (pos zero) r e decided = elim (Bool-cases (leb b.len 1024)) [
    | inl all ↦ let stops : r ≡ done = rw all at e in rw (stops, after_round) refl
    | inr more ↦ absurd (decided (omega (arith, v.counted, lt_of_not_leb b.len 1024 more)) refl)
  ]
  round-split (pos (suc n)) r e decided = elim (Bool-cases (leb (suc n) b.len)) [
    | inl enough ↦
        let (p, rest, e', w, v', c, d) : Delivered (suc n) b r = rw enough at e in
        let shorter : rest.len < k = omega (
          arith,
          v.counted,
          v'.counted,
          ap length d,
          length-drop (suc n) (contents b),
          leb→le (suc n) b.len enough,
        ) in
        let test : leb (suc n) (length (contents b)) ≡ true = rw (← v.counted) enough in
        rw (e', after_round, test)
          (view-put_first p (again rest)
            ∙ ap₂ frame_first c (agree rest v' shorter ∙ ap frame_again d))
    | inr short ↦
        let stops : r ≡ done = rw short at e in
        let test : leb (suc n) (length (contents b)) ≡ false = rw (← v.counted) short in
        rw (stops, after_round, test) refl
  ]

module _ (check : List ℕ → ℤ) where
  -- Whatever the check answers and however far the loop gets: the packets delivered, followed by
  -- what is left in the buffer, are the bytes that were there, and no assertion fails.
  pub parsing_protocol-Keeps :
      (k : ℕ) (b : SliceBuffer) → IsBuffer b → Keeps (contents b) (parsing_protocol check k b)
  unfolding parsing_protocol
  parsing_protocol-Keeps zero b v = (v, refl)
  parsing_protocol-Keeps (suc k) b v = elim (Bool-cases (b.len == 0)) [
    | inl none_left ↦ rw none_left (v, refl)
    | inr some_left ↦ rw some_left (
        round-Keeps (parsing_protocol check k) b v (parsing_protocol-Keeps k)
          (check (take 1024 (contents b))) (parse_round check b) (parse_round_lem check b v))
  ]

  -- The check answers the same for the bytes that it is shown as for all of them.
  shown_lem :
      DecidesEarly check
      → (xs : List ℕ)
      → (check (take 1024 xs) ≡ check xs) × (1024 < length xs → check (take 1024 xs) ≢ pos 0)
  shown_lem early xs = elim (Bool-cases (leb (length xs) 1024)) [
    | inl all ↦ (
      ap check (take_all 1024 xs (leb→le (length xs) 1024 all)),
      λ more. absurd (omega (arith, leb→le (length xs) 1024 all)),
    )
    | inr more ↦ (
      (early xs (lt_of_not_leb (length xs) 1024 more)).1,
      λ _. (early xs (lt_of_not_leb (length xs) 1024 more)).0,
    )
  ]

  split_step :
      (k : ℕ) (xs : List ℕ)
      → 0 < length xs
      → split check (suc k) xs ≡ next_frame (split check k) xs (check xs)
  unfolding split
  split_step k [] h = absurd (omega arith)
  split_step k (x ∷ xs) h = refl

  module _ (early : DecidesEarly check) where
    pub parsing_protocol-split :
        (k : ℕ) (b : SliceBuffer)
        → IsBuffer b
        → b.len < k
        → view (parsing_protocol check k b) ≡ split check k (contents b)
    unfolding parsing_protocol split
    parsing_protocol-split zero b v h = absurd (omega arith)
    parsing_protocol-split (suc k) b v h = elim (Bool-cases (b.len == 0)) [
      | inl none_left ↦
          let bare : contents b ≡ [] = eq-nil (contents b) (ground (arith, v.counted)) in
          rw (none_left, bare) refl
      | inr some_left ↦
          let (same, decided) = shown_lem early (contents b) in
          let some_bytes : 0 < length (contents b) = ground (arith, v.counted) in
          rw (some_left, split_step k (contents b) some_bytes, ← same)
            (round-split (parsing_protocol check k) (split check k) b k v
              (λ rest w lt. parsing_protocol-split k rest w lt) (omega arith)
              (check (take 1024 (contents b))) (parse_round check b) (parse_round_lem check b v)
              decided)
    ]

    -- For a check that answers from the first 1024 bytes: with more fuel than bytes, parsing a
    -- well-formed buffer ends, and gives the packets, the rest and the error of the framing of its
    -- bytes.
    pub parsing_protocol-frames :
        (k : ℕ) (b : SliceBuffer)
        → IsBuffer b
        → b.len < k
        → (view (parsing_protocol check k b) ≡ split check k (contents b))
          × (view (parsing_protocol check k b) ≢ unfinished)
    parsing_protocol-frames k b v h =
        let same : view (parsing_protocol check k b) ≡ split check k (contents b) =
          parsing_protocol-split k b v h in
        (same, λ e. split_finished check k (contents b) (omega (arith, v.counted)) (sym same ∙ e))
