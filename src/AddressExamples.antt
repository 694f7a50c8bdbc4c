-- ===== src/AddressExamples.antt =====
-- The theorems on socket addresses at concrete inputs.
use raptor_lite.Common.{ℕ, ◌+◌, ◌*◌, ◌/◌, ◌%◌, ◌<◌, ◌≡◌, some, [], ◌∷◌, arith, if◌then◌else◌, ◌==◌}
use raptor_lite.Address.{
  in4, in6, ResolvedAddress, resolved, sockaddr_in_size, sockaddr_in6_size, sockaddr_get_port,
  sockaddr_get_port, Printer,
}

-- The two bytes of a port the other way round.
abbrev swap : ℕ → ℕ
swap p = p % 256 * 256 + p / 256

swap-swap : (p : ℕ) → p < 65536 → swap (swap p) ≡ p
swap-swap p h = omega (arith, h)

-- 10.0.0.1 and port 80, and as ::ffff:10.0.0.1.
abbrev ten : ResolvedAddress
ten = resolved (in4 20480 (10 ∷ 0 ∷ 0 ∷ 1 ∷ [])) sockaddr_in_size

abbrev mapped_ten : ResolvedAddress
mapped_ten =
    resolved (in6 20480 (0 ∷ 0 ∷ 0 ∷ 0 ∷ 0 ∷ 0 ∷ 0 ∷ 0 ∷ 0 ∷ 0 ∷ 255 ∷ 255 ∷ 10 ∷ 0 ∷ 0 ∷ 1 ∷ []) 0)
      sockaddr_in6_size

-- A printer for the one address, that counts ports up to 80.
abbrev printer : Printer
printer = record {
  ntop = λ family ip. some (49 ∷ 48 ∷ 46 ∷ 48 ∷ 46 ∷ 48 ∷ 46 ∷ 49 ∷ []);
  decimal = λ n. if n == 80 then 56 ∷ 48 ∷ [] else 48 ∷ [];
}
