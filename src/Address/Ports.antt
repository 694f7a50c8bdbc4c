-- ===== src/Address/Ports.antt =====
-- Ports and wildcards of addresses.
use raptor_lite.Common.{
  ℕ, ◌<◌, ◌≡◌, refl, ap, true, false, some, ltb, lt→ltb, ltb→lt, replicate, inl, inr, ◌⊎◌,
  Bool-cases,
}
use raptor_lite.Common.Int.{ℤ, pos, negsuc}
use raptor_lite.Slice.{bytes_eq}
use raptor_lite.Address.{
  SockAddr, in4, in6, other, ResolvedAddress, resolved, sockaddr_in_size, sockaddr_in6_size, unmap,
  sockaddr_is_v4mapped, sockaddr_to_v4mapped, map_to_v6, normalized, all_zero, wildcard_port,
  sockaddr_is_wildcard, sockaddr_make_wildcard4, sockaddr_make_wildcard6, port_of,
  sockaddr_get_port, with_port, sockaddr_set_port,
}

module _ (htons ntohs : ℕ → ℕ) (swaps : (p : ℕ) → p < 65536 → ntohs (htons p) ≡ p) where
  -- A wildcard address of either family, for a port in range, is recognised as one with that port; and
  -- so is the IPv4 wildcard as a mapped address.
  pub is_wildcard-make :
      (port : ℕ)
      → port < 65536
      → (a : ResolvedAddress) × (b : ResolvedAddress) × (m : ResolvedAddress)
        × (sockaddr_make_wildcard4 htons (pos port) ≡ some a)
        × (sockaddr_make_wildcard6 htons (pos port) ≡ some b)
        × (sockaddr_to_v4mapped a ≡ some m)
        × (sockaddr_is_wildcard ntohs a ≡ some port)
        × (sockaddr_is_wildcard ntohs b ≡ some port)
        × (sockaddr_is_wildcard ntohs m ≡ some port)
  unfolding sockaddr_make_wildcard4 sockaddr_make_wildcard6 sockaddr_to_v4mapped map_to_v6
      sockaddr_is_wildcard wildcard_port normalized sockaddr_is_v4mapped unmap all_zero bytes_eq
  is_wildcard-make port h =
      let in_range = lt→ltb port 65536 h in
      let back = ap some (swaps port h) in
      (
        resolved (in4 (htons port) (replicate 4 0)) sockaddr_in_size,
        resolved (in6 (htons port) (replicate 16 0) 0) sockaddr_in6_size,
        _,
        rw in_range refl,
        rw in_range refl,
        refl,
        back,
        back,
        back,
      )

  -- What a set port leaves: the family and the bytes of the address.
  abbrev pub SameHost : SockAddr → SockAddr → Type 0
  SameHost (in4 p ip) (in4 p' ip') = ip ≡ ip'
  SameHost (in6 p ip scope) (in6 p' ip' scope') = (ip ≡ ip') × (scope ≡ scope')
  SameHost a b = ⊥

  -- One step of the setting, for a port in range.
  by_family :
      (a : SockAddr) (n p : ℕ)
      → ntohs (htons p) ≡ p
      → (((with_port htons a p).1 ≡ true)
          × SameHost a (with_port htons a p).0
          × (pos (port_of ntohs (with_port htons a p).0) ≡ pos p))
        ⊎ ((resolved (with_port htons a p).0 n ≡ resolved a n) × ((with_port htons a p).1 ≡ false))
  unfolding with_port port_of
  by_family (in4 old ip) n p e = inl (refl, refl, ap pos e)
  by_family (in6 old ip scope) n p e = inl (refl, (refl, refl), ap pos e)
  by_family (other family) n p e = inr (refl, refl)

  -- `raptor_sockaddr_set_port` of an IPv4 or IPv6 address and a port in range succeeds, the port is
  -- read back, and the rest of the address stays; of any other family or port it fails and changes
  -- nothing.
  pub get_port-set_port :
      (r : ResolvedAddress) (port : ℤ)
      → (((sockaddr_set_port htons r port).1 ≡ true)
          × SameHost r.addr (sockaddr_set_port htons r port).0.addr
          × (pos (sockaddr_get_port ntohs (sockaddr_set_port htons r port).0) ≡ port))
        ⊎ (((sockaddr_set_port htons r port).0 ≡ r) × ((sockaddr_set_port htons r port).1 ≡ false))
  unfolding sockaddr_set_port sockaddr_get_port
  get_port-set_port r (negsuc k) = inr (refl, refl)
  get_port-set_port r (pos p) = elim (Bool-cases (ltb p 65536)) [
    | inr out ↦ rw out (inr (refl, refl))
    | inl within ↦ rw within (by_family r.addr r.len p (swaps p (ltb→lt p 65536 within)))
  ]
