-- ===== src/Address.antt =====
-- src/common/socket_util.cc: socket addresses. An address is given by its family and the fields of that
-- family that the code reads; `len` is the length that goes with it. Byte order, printing and parsing
-- belong to the C library and are parameters.
pub mod Mapped
pub mod Ports
pub mod Texts
use raptor_lite.Common.{
  ℕ, zero, suc, ◌+◌, ◌<◌, ◌≡◌, Bool, true, false, Option, none, some, List, [], ◌∷◌, ◌++◌, ltb, leb,
  ◌==◌, if◌then◌else◌, length, take, drop, replicate,
}
use raptor_lite.Common.Int.{ℤ, pos, negsuc}
use raptor_lite.Slice.{bytes_eq}
use raptor_lite.HostPort.{join_host_port}

-- `raptor_sockaddr_in`, `raptor_sockaddr_in6`, and an address of another family. Ports are in network
-- order.
pub data SockAddr : Type 0 where
  in4 : (sin_port : ℕ) (sin_addr : List ℕ) → SockAddr
  in6 : (sin6_port : ℕ) (sin6_addr : List ℕ) (sin6_scope_id : ℕ) → SockAddr
  other : (sa_family : ℕ) → SockAddr

-- `raptor_resolved_address`
pub record ResolvedAddress : Type 0 where
  pub addr : SockAddr
  pub len : ℕ

abbrev pub resolved : SockAddr → ℕ → ResolvedAddress
resolved a n = record { addr = a; len = n }

-- The sizes of the two structures, and the families of Linux.
abbrev pub sockaddr_in_size : ℕ
sockaddr_in_size = 16

abbrev pub sockaddr_in6_size : ℕ
sockaddr_in6_size = 28

abbrev pub af_unix : ℕ
af_unix = 1

abbrev pub af_inet : ℕ
af_inet = 2

abbrev pub af_inet6 : ℕ
af_inet6 = 10

-- `kV4MappedPrefix`
abbrev pub v4_mapped_prefix : List ℕ
v4_mapped_prefix = 0 ∷ 0 ∷ 0 ∷ 0 ∷ 0 ∷ 0 ∷ 0 ∷ 0 ∷ 0 ∷ 0 ∷ 255 ∷ 255 ∷ []

-- `raptor_sockaddr_is_v4mapped`: `none` is the result 0, `some` the result 1 with what is written out.
unfoldable pub unmap : SockAddr → Option ResolvedAddress
unmap (in4 port ip) = none
unmap (in6 port ip scope) =
    if bytes_eq (take 12 ip) v4_mapped_prefix
    then some (resolved (in4 port (take 4 (drop 12 ip))) sockaddr_in_size)
    else none
unmap (other family) = none

unfoldable pub sockaddr_is_v4mapped : ResolvedAddress → Option ResolvedAddress
unfolding unmap
sockaddr_is_v4mapped r = unmap r.addr

-- `raptor_sockaddr_to_v4mapped`
unfoldable pub map_to_v6 : SockAddr → Option ResolvedAddress
map_to_v6 (in4 port ip) =
    some (resolved (in6 port (v4_mapped_prefix ++ take 4 ip) 0) sockaddr_in6_size)
map_to_v6 (in6 port ip scope) = none
map_to_v6 (other family) = none

unfoldable pub sockaddr_to_v4mapped : ResolvedAddress → Option ResolvedAddress
unfolding map_to_v6
sockaddr_to_v4mapped r = map_to_v6 r.addr

-- `if (raptor_sockaddr_is_v4mapped(resolved_addr, &addr_normalized)) resolved_addr = &addr_normalized;`
unfoldable pub normalized : ResolvedAddress → ResolvedAddress
normalized r = elim (sockaddr_is_v4mapped r) [ none ↦ r | some q ↦ q ]

-- The bytes of an address are all 0.
unfoldable pub all_zero : List ℕ → Bool
all_zero [] = true
all_zero (x ∷ xs) = if x == 0 then all_zero xs else false

-- `raptor_sockaddr_get_family`
unfoldable pub family_of : SockAddr → ℕ
family_of (in4 port ip) = af_inet
family_of (in6 port ip scope) = af_inet6
family_of (other family) = family

unfoldable pub sockaddr_get_family : ResolvedAddress → ℕ
unfolding family_of
sockaddr_get_family r = family_of r.addr

module _ (ntohs : ℕ → ℕ) where
  -- `raptor_sockaddr_is_wildcard`: `some` is the result 1 with the port.
  unfoldable pub wildcard_port : SockAddr → Option ℕ
  wildcard_port (in4 port ip) = if all_zero ip then some (ntohs port) else none
  wildcard_port (in6 port ip scope) = if all_zero (take 16 ip) then some (ntohs port) else none
  wildcard_port (other family) = none

  unfoldable pub sockaddr_is_wildcard : ResolvedAddress → Option ℕ
  unfolding wildcard_port
  sockaddr_is_wildcard r = wildcard_port (normalized r).addr

  -- `raptor_sockaddr_get_port`
  unfoldable pub port_of : SockAddr → ℕ
  port_of (in4 port ip) = ntohs port
  port_of (in6 port ip scope) = ntohs port
  port_of (other family) = if family == af_unix then 1 else 0

  unfoldable pub sockaddr_get_port : ResolvedAddress → ℕ
  unfolding port_of
  sockaddr_get_port r = port_of r.addr

module _ (htons : ℕ → ℕ) where
  -- `raptor_sockaddr_make_wildcard4` and `6`; `none` is a failed assertion.
  unfoldable pub sockaddr_make_wildcard4 : ℤ → Option ResolvedAddress
  sockaddr_make_wildcard4 (negsuc n) = none
  sockaddr_make_wildcard4 (pos port) =
      if ltb port 65536
      then some (resolved (in4 (htons port) (replicate 4 0)) sockaddr_in_size)
      else none

  unfoldable pub sockaddr_make_wildcard6 : ℤ → Option ResolvedAddress
  sockaddr_make_wildcard6 (negsuc n) = none
  sockaddr_make_wildcard6 (pos port) =
      if ltb port 65536
      then some (resolved (in6 (htons port) (replicate 16 0) 0) sockaddr_in6_size)
      else none

  -- `raptor_sockaddr_set_port`: the result is 1 (`true`) or 0.
  unfoldable pub with_port : SockAddr → ℕ → SockAddr × Bool
  with_port (in4 old ip) port = (in4 (htons port) ip, true)
  with_port (in6 old ip scope) port = (in6 (htons port) ip scope, true)
  with_port (other family) port = (other family, false)

  unfoldable pub sockaddr_set_port : ResolvedAddress → ℤ → ResolvedAddress × Bool
  unfolding with_port
  sockaddr_set_port r (negsuc n) = (r, false)
  sockaddr_set_port r (pos port) =
      if ltb port 65536
      then (record r { addr = (with_port r.addr port).0 }, (with_port r.addr port).1)
      else (r, false)

  -- `raptor_string_to_sockaddr`, with the two calls of `inet_pton`; `none` is a failed assertion. The
  -- result of the setting of the port is not looked at.
  unfoldable pub string_to_sockaddr :
      (pton6 pton4 : List ℕ → Option (List ℕ)) → List ℕ → ℤ → Option ResolvedAddress
  string_to_sockaddr pton6 pton4 text port = elim (pton6 text) [
    | some ip ↦ some (sockaddr_set_port (resolved (in6 0 ip 0) sockaddr_in6_size) port).0
    | none ↦ elim (pton4 text) [
      | some ip ↦ some (sockaddr_set_port (resolved (in4 0 ip) sockaddr_in_size) port).0
      | none ↦ none
    ]
  ]

-- What the C library prints: `inet_ntop` of a family and an address, `%d`, and the text for an address
-- of another family.
pub record Printer : Type 0 where
  pub ntop : ℕ → List ℕ → Option (List ℕ)
  pub decimal : ℕ → List ℕ

-- `%s%%25%u`
abbrev pub scoped : Printer → List ℕ → ℕ → List ℕ
scoped p host scope = if scope == 0 then host else host ++ 37 ∷ 50 ∷ 53 ∷ p.decimal scope

-- `(sockaddr family=%d)`
abbrev pub family_text : Printer → ℕ → List ℕ
family_text p family =
    40
      ∷ 115
      ∷ 111
      ∷ 99
      ∷ 107
      ∷ 97
      ∷ 100
      ∷ 100
      ∷ 114
      ∷ 32
      ∷ 102
      ∷ 97
      ∷ 109
      ∷ 105
      ∷ 108
      ∷ 121
      ∷ 61
      ∷ p.decimal family
    ++ 41 ∷ []

-- The address as text, without its port; `none` if it has none.
unfoldable pub host_text : Printer → SockAddr → Option (List ℕ)
host_text p (in4 port ip) = p.ntop af_inet ip
host_text p (in6 port ip scope) = elim (p.ntop af_inet6 ip) [
  | none ↦ none
  | some host ↦ some (scoped p host scope)
]
host_text p (other family) = none

unfoldable pub joined_text : Printer → ℕ → ℕ → Option (List ℕ) → List ℕ
joined_text p family port none = family_text p family
joined_text p family port (some host) = join_host_port host (p.decimal port)

-- `raptor_sockaddr_to_string`
unfoldable pub sockaddr_to_string : (ntohs : ℕ → ℕ) → Printer → Bool → ResolvedAddress → List ℕ
sockaddr_to_string ntohs p normalize r =
    let q : ResolvedAddress = if normalize then normalized r else r in
    joined_text p (sockaddr_get_family q) (sockaddr_get_port ntohs q) (host_text p q.addr)

-- `raptor_sockaddr_get_ip` into a buffer of `size` bytes. Only a text with a scope is cut to the
-- buffer; `none` is a write behind its end.
unfoldable pub ip_text : Printer → ℕ → SockAddr → Option (List ℕ)
ip_text p size (in4 port ip) = elim (p.ntop af_inet ip) [
  | none ↦ some []
  | some host ↦ if leb (length host) size then some host else none
]
ip_text p size (in6 port ip scope) = elim (p.ntop af_inet6 ip) [
  | none ↦ some []
  | some host ↦
      if scope == 0
      then (if leb (length host) size then some host else none)
      else some (take size (scoped p host scope))
]
ip_text p size (other family) = some []

unfoldable pub sockaddr_get_ip : Printer → ℕ → ResolvedAddress → Option (List ℕ)
unfolding ip_text
sockaddr_get_ip p size r = ip_text p size (normalized r).addr
