-- ===== src/Address/Mapped.antt =====
-- IPv4 addresses as IPv6 addresses, and back.
use raptor_lite.Common.{ℕ, ◌≡◌, refl, true, List, length}
use raptor_lite.Slice.{bytes_eq}
use raptor_lite.Slice.Build.{bytes_eq_iff}
use raptor_lite.Address.{
  SockAddr, in4, in6, other, ResolvedAddress, sockaddr_in_size, sockaddr_in6_size,
}

-- An address has the length of its family, and as many bytes as the family has.
abbrev pub AddrIsValid : SockAddr → ℕ → Type 0
AddrIsValid (in4 port ip) len = (length ip ≡ 4) × (len ≡ sockaddr_in_size)
AddrIsValid (in6 port ip scope) len = (length ip ≡ 16) × (len ≡ sockaddr_in6_size)
AddrIsValid (other family) len = Unit {0}

abbrev pub IsValidAddress : ResolvedAddress → Type 0
IsValidAddress r = AddrIsValid r.addr r.len

-- The address has no scope.
abbrev pub Unscoped : SockAddr → Type 0
Unscoped (in4 port ip) = Unit {0}
Unscoped (in6 port ip scope) = scope ≡ 0
Unscoped (other family) = Unit {0}

same_bytes : (xs : List ℕ) → bytes_eq xs xs ≡ true
same_bytes xs = (bytes_eq_iff xs xs).1 refl
