-- ===== src/Sockets/Counted.antt =====
-- How often a descriptor is open.
use raptor_lite.Common.{
  ℕ, ◌+◌, ◌<◌, ◌≡◌, ap, Bool, List, [], ◌∷◌, ◌==◌, eq_of_==, if◌then◌else◌, inl, inr, Bool-cases,
  one, times, arith,
}
use raptor_lite.Sockets.Opened.{without}

pub times-without :
    (n m : ℕ) (xs : List ℕ) → 0 < times m xs → times n (without m xs) + one n m ≡ times n xs
times-without n m [] h = absurd (omega (arith, h))
times-without n m (x ∷ xs) h = elim (Bool-cases (m == x)) [
  | inl e ↦ let same : one n m ≡ one n x = ap (one n) (eq_of_== m x e) in rw e (omega (arith, same))
  | inr ne ↦
      let away : one m x ≡ 0 = ap (λ (b : Bool). if b then 1 else 0) ne in
      let inside : 0 < times m xs = omega (arith, h, away) in
      rw ne (omega (arith, times-without n m xs inside))
]
