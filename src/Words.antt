-- ===== src/Words.antt =====
-- Unsigned machine words as native numbers, and the laws of the bit operations that the code
-- packs and unpacks its identifiers with.
use Prim.Native.Nat.{bit_and, bit_or, digits, bit_and-bitwise, bit_or-bitwise, max}
use native.Mathlib.Nat.{two-pow-succ}
use raptor_lite.Common.{
  sym, ap, ◌∙◌, ℕ, zero, suc, ◌+◌, ◌-◌, ◌*◌, ◌/◌, ◌%◌, ◌^◌, ◌≤◌, ◌<◌, min, ◌≡◌, refl, arith,
}

-- The casts `(uint16_t)`, `(uint32_t)` and arithmetic on `size_t`.
abbrev pub u16 : ℕ → ℕ
u16 n = n % 2 ^ 16

abbrev pub u32 : ℕ → ℕ
u32 n = n % 2 ^ 32

abbrev pub u64 : ℕ → ℕ
u64 n = n % 2 ^ 64

-- `a - b` on `size_t` and `uint64_t`.
abbrev pub sub64 : ℕ → ℕ → ℕ
sub64 a b = u64 (a + 2 ^ 64 - b)

-- Both operations combine the binary digits of two numbers, as many as the first number has: once
-- there are enough, the count of digits does not matter.
module _ (rest : ℕ → ℕ) (op : ℕ → ℕ → ℕ) where
  enough_digits : (a b j k : ℕ) → a ≤ j → a ≤ k → digits rest op j a b ≡ digits rest op k a b
  enough_digits zero b zero zero hj hk = refl
  enough_digits zero b zero (suc k) hj hk = refl
  enough_digits zero b (suc j) zero hj hk = refl
  enough_digits zero b (suc j) (suc k) hj hk = refl
  enough_digits (suc a) b zero k hj hk = absurd (omega arith)
  enough_digits (suc a) b (suc j) zero hj hk = absurd (omega arith)
  enough_digits (suc a) b (suc j) (suc k) hj hk =
      let high : digits rest op j (suc a / 2) (b / 2) ≡ digits rest op k (suc a / 2) (b / 2) =
        enough_digits (suc a / 2) (b / 2) j k (omega arith) (omega arith) in
      rw high refl

  -- The lowest digit of the result, and the others.
  last_digit :
      (a b : ℕ)
      → 0 < a
      → digits rest op a a b ≡ digits rest op (a / 2) (a / 2) (b / 2) * 2 + op (a % 2) (b % 2)
  last_digit zero b h = absurd (omega arith)
  last_digit (suc a) b h =
      let high : digits rest op a (suc a / 2) (b / 2)
          ≡ digits rest op (suc a / 2) (suc a / 2) (b / 2) =
        enough_digits (suc a / 2) (b / 2) a (suc a / 2) (omega arith) (omega arith) in
      rw high refl

or_last : (a b : ℕ) → 0 < a → bit_or a b ≡ bit_or (a / 2) (b / 2) * 2 + max (a % 2) (b % 2)
or_last a b h =
    bit_or-bitwise a b
    ∙ last_digit (λ x. x) max a b h
    ∙ ap (λ (high : ℕ). high * 2 + max (a % 2) (b % 2)) (sym (bit_or-bitwise (a / 2) (b / 2)))

and_last : (a b : ℕ) → 0 < a → bit_and a b ≡ bit_and (a / 2) (b / 2) * 2 + min (a % 2) (b % 2)
and_last a b h =
    bit_and-bitwise a b
    ∙ last_digit (λ x. 0) min a b h
    ∙ ap (λ (high : ℕ). high * 2 + min (a % 2) (b % 2)) (sym (bit_and-bitwise (a / 2) (b / 2)))

nothing-or : (b : ℕ) → bit_or 0 b ≡ b
nothing-or b = bit_or-bitwise 0 b

nothing-and : (b : ℕ) → bit_and 0 b ≡ 0
nothing-and b = bit_and-bitwise 0 b

or_nothing : (digit_count a : ℕ) → a ≤ digit_count → bit_or a 0 ≡ a
or_nothing count zero h = nothing-or 0
or_nothing zero (suc a) h = absurd (omega arith)
or_nothing (suc count) (suc a) h =
    let high : bit_or (suc a / 2) 0 ≡ suc a / 2 = or_nothing count (suc a / 2) (omega arith) in
    omega (arith, or_last (suc a) 0 (omega arith), high)

and_nothing : (digit_count a : ℕ) → a ≤ digit_count → bit_and a 0 ≡ 0
and_nothing count zero h = nothing-and 0
and_nothing zero (suc a) h = absurd (omega arith)
and_nothing (suc count) (suc a) h =
    let high : bit_and (suc a / 2) 0 ≡ 0 = and_nothing count (suc a / 2) (omega arith) in
    omega (arith, and_last (suc a) 0 (omega arith), high)

positive : (k : ℕ) → 0 < 2 ^ k
positive zero = omega arith
positive (suc k) = omega (arith, two-pow-succ k, positive k)

-- The step of the law below: `x` has been shifted by one place, and may be 0.
or_doubled : (x b s : ℕ) → bit_or x (b / 2) ≡ x + b / 2 → s ≡ x * 2 → bit_or s b ≡ s + b
or_doubled zero b s h e = rw e (omega (arith, nothing-or b))
or_doubled (suc x) b s h e = rw e (
    let half : suc x * 2 / 2 ≡ suc x = omega arith in
    let l : bit_or (suc x * 2) b ≡ bit_or (suc x) (b / 2) * 2 + max (suc x * 2 % 2) (b % 2) =
      or_last (suc x * 2) b (omega arith)
      ∙ ap (λ (y : ℕ). bit_or y (b / 2) * 2 + max (suc x * 2 % 2) (b % 2)) half in
    omega (arith, l, h))

-- `|` of a shifted word and one that fits below the shift is their sum.
pub bit_or_shifted : (k a b : ℕ) → b < 2 ^ k → bit_or (a * 2 ^ k) b ≡ a * 2 ^ k + b
bit_or_shifted zero a zero h = omega (arith, or_nothing (a * 1) (a * 1) (omega arith))
bit_or_shifted zero a (suc b) h = absurd (omega arith)
bit_or_shifted (suc k) a b h =
    let p : 2 ^ suc k ≡ 2 ^ k + 2 ^ k = two-pow-succ k in
    or_doubled (a * 2 ^ k) b (a * 2 ^ suc k) (bit_or_shifted k a (b / 2) (omega arith))
      (rw p (omega arith))

-- A mask of `k` ones, by doubling.
abbrev pub mask : ℕ → ℕ
mask zero = 0
mask (suc k) = mask k * 2 + 1

halved : (p a : ℕ) → 0 < p → a / 2 % p * 2 + a % 2 ≡ a % (p + p)
halved p a h = grind arith

-- `&` with a mask of `k` ones is the remainder by `2 ^ k`.
pub bit_and-mask : (k a : ℕ) → bit_and a (mask k) ≡ a % 2 ^ k
bit_and-mask zero a = omega (arith, and_nothing a a (omega arith))
bit_and-mask (suc k) zero = nothing-and (mask k * 2 + 1) ∙ sym (omega (arith, positive (suc k)))
bit_and-mask (suc k) (suc a) =
    let half : (mask k * 2 + 1) / 2 ≡ mask k = omega arith in
    let l : bit_and (suc a) (mask k * 2 + 1)
        ≡ bit_and (suc a / 2) (mask k) * 2 + min (suc a % 2) ((mask k * 2 + 1) % 2) =
      and_last (suc a) (mask k * 2 + 1) (omega arith)
      ∙ ap (λ (y : ℕ). bit_and (suc a / 2) y * 2 + min (suc a % 2) ((mask k * 2 + 1) % 2)) half in
    rw (two-pow-succ k)
      (omega (arith, l, bit_and-mask k (suc a / 2), halved (2 ^ k) (suc a) (positive k)))
