-- ===== src/Common/Counts.antt =====
-- How often a number stands in a list.
use Prim.Native.Nat.{ℕ, ◌+◌, ◌≤◌}
use mathlib.Core.Logic.{inl, inr}
use mathlib.Core.Path.{◌≡◌, ap}
use mathlib.Core.Bool.{Bool, false}
use mathlib.Core.List.{List, [], ◌∷◌, ◌++◌}
use native.Mathlib.Omega.{arith}
use raptor_lite.Common.Tests.{◌==◌, ==_self, eq_of_==, if◌then◌else◌, Bool-cases}

abbrev pub one : ℕ → ℕ → ℕ
one n x = if n == x then 1 else 0

abbrev pub times : ℕ → List ℕ → ℕ
times n [] = 0
times n (x ∷ xs) = one n x + times n xs

pub one_self : (n : ℕ) → one n n ≡ 1
one_self n = ap (λ (b : Bool). if b then 1 else 0) (==_self n)

pub one_apart : (n x : ℕ) → one n x ≡ 0 → (n == x) ≡ false
one_apart n x h = ground (arith, h)

pub one_sym : (n x : ℕ) → one n x ≡ one x n
one_sym n x = ground arith

pub times-append : (n : ℕ) (xs ys : List ℕ) → times n (xs ++ ys) ≡ times n xs + times n ys
times-append n [] ys = omega arith
times-append n (x ∷ xs) ys = omega (arith, times-append n xs ys)

-- A number that is not in a list keeps it free of repetitions.
pub apart_new :
    (xs : List ℕ) (q : ℕ)
    → ((n : ℕ) → times n xs ≤ 1)
    → times q xs ≡ 0
    → (n : ℕ) → times n xs + one n q ≤ 1
apart_new xs q h k n = elim (Bool-cases (n == q)) [
  | inl e ↦
      let same : times n xs ≡ times q xs = ap (λ (m : ℕ). times m xs) (eq_of_== n q e) in
      rw e (omega (arith, same, k))
  | inr ne ↦ rw ne (omega (arith, h n))
]
