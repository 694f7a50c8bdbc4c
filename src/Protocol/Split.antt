-- ===== src/Protocol/Split.antt =====
-- The framing that a packet protocol means: cut the byte string by the length that the check gives
-- for all of it. There is no buffer, no slice and no partial view here.
use raptor_lite.Common.{
  ℕ, zero, suc, ◌<◌, ◌≢◌, refl, inl, inr, List, [], ◌∷◌, arith, leb, leb→le, if◌then◌else◌, length,
  take, drop, length-drop, Bool-cases,
}
use raptor_lite.Common.Int.{ℤ, pos, negsuc}

pub data Frames : Type 0 where
  frames : List (List ℕ) → List ℕ → Frames
  frame_error : List (List ℕ) → List ℕ → Frames
  unfinished : Frames

abbrev pub frame_first : List ℕ → Frames → Frames
frame_first f (frames fs rest) = frames (f ∷ fs) rest
frame_first f (frame_error fs rest) = frame_error (f ∷ fs) rest
frame_first f unfinished = unfinished

-- What an answer of the check does with the bytes `xs`, where `again` frames what follows.
unfoldable pub next_frame : (List ℕ → Frames) → List ℕ → ℤ → Frames
next_frame again xs (negsuc n) = frame_error [] xs
next_frame again xs (pos zero) = frames [] xs
next_frame again xs (pos (suc n)) =
    let rest = frame_first (take (suc n) xs) (again (drop (suc n) xs)) in
    if leb (suc n) (length xs) then rest else frames [] xs

unfoldable pub split : (List ℕ → ℤ) → ℕ → List ℕ → Frames
split check zero xs = unfinished
split check (suc k) [] = frames [] []
split check (suc k) (x ∷ xs) = next_frame (split check k) (x ∷ xs) (check (x ∷ xs))

frame_first_finished : (f : List ℕ) (r : Frames) → r ≢ unfinished → frame_first f r ≢ unfinished
frame_first_finished f (frames fs rest) h e = cc
frame_first_finished f (frame_error fs rest) h e = cc
frame_first_finished f unfinished h e = h refl

-- Each frame takes at least one byte, so the framing ends.
pub split_finished :
    (check : List ℕ → ℤ) (k : ℕ) (xs : List ℕ) → length xs < k → split check k xs ≢ unfinished
unfolding split next_frame
split_finished check zero xs h = absurd (omega arith)
split_finished check (suc k) [] h = λ e. cc
split_finished check (suc k) (x ∷ xs) h =
    next_finished (split check k) (x ∷ xs) (check (x ∷ xs))
      (λ rest lt. split_finished check k rest (omega arith))
  where
    next_finished :
        (again : List ℕ → Frames) (ys : List ℕ) (z : ℤ)
        → ((rest : List ℕ) → length rest < length ys → again rest ≢ unfinished)
        → next_frame again ys z ≢ unfinished
    next_finished again ys (negsuc n) ends = λ e. cc
    next_finished again ys (pos zero) ends = λ e. cc
    next_finished again ys (pos (suc n)) ends = elim (Bool-cases (leb (suc n) (length ys))) [
      | inl enough ↦ rw enough (
          frame_first_finished (take (suc n) ys) (again (drop (suc n) ys)) (
            ends (drop (suc n) ys)
              (omega (arith, length-drop (suc n) ys, leb→le (suc n) (length ys) enough))))
      | inr short ↦ rw short (λ e. cc)
    ]
