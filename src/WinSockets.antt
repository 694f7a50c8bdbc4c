-- ===== src/WinSockets.antt =====
-- src/windows/socket_setting.cc: the making and setting up of sockets on Windows, with the calls and the
-- answers of Sockets. A negative answer of `WSASocket` is INVALID_SOCKET.
pub mod Opened
use raptor_lite.Common.{
  ℕ, zero, suc, ◌/◌, Bool, true, false, Option, none, some, ◌==◌, if◌then◌else◌, is_some,
}
use raptor_lite.Common.Int.{ℤ, pos, negsuc}
use raptor_lite.Address.{
  ResolvedAddress, af_inet, af_inet6, sockaddr_get_family, sockaddr_is_v4mapped,
  sockaddr_is_wildcard, sockaddr_make_wildcard6,
}
use raptor_lite.Sockets.{
  Os, Trace, Check, Outcome, Fault, posix, succeed, ◌>>◌, if_zero, as_int, Opt, reuse_addr,
  tcp_nodelay, Call, open_socket, set_option, bind_to, listen_on, name_of, close_fd,
  set_non_blocking, get_function, fn_disconnect_ex, disconnect_ex, Mode, mode_none, mode_ipv4,
  mode_ipv6, mode_dualstack, Created, created, mapped_address, call, set_timeout,
  set_socket_ipv6_only, calling, closing_on_error, snd_timeo, rcv_timeo,
}

-- A socket that is not INVALID_SOCKET.
abbrev pub if_valid : ℕ → ℤ → Option Fault
if_valid family (pos n) = none
if_valid family (negsuc n) = some (posix (open_socket family))

module _ (os : Os) where
  unfoldable pub set_socket_nonblocking : ℕ → Bool → Check
  unfolding call
  set_socket_nonblocking fd on t =
      if_zero (posix (set_non_blocking fd (as_int on))) succeed
        (call os (set_non_blocking fd (as_int on)) t)

  unfoldable pub set_int_option : ℕ → Opt → Bool → Check
  unfolding call
  set_int_option fd opt on t =
      if_zero (posix (set_option fd opt (as_int on))) succeed
        (call os (set_option fd opt (as_int on)) t)

  unfoldable pub set_socket_reuse_addr : ℕ → Bool → Check
  unfolding set_int_option
  set_socket_reuse_addr fd on = set_int_option fd reuse_addr on

  unfoldable pub set_socket_low_latency : ℕ → Bool → Check
  unfolding set_int_option
  set_socket_low_latency fd on = set_int_option fd tcp_nodelay on

  -- These four do nothing on Windows.
  unfoldable pub set_socket_cloexec : ℕ → Bool → Check
  set_socket_cloexec fd on = succeed

  unfoldable pub set_socket_reuse_port : ℕ → Bool → Check
  set_socket_reuse_port fd on = succeed

  unfoldable pub set_socket_tcp_user_timeout : ℕ → ℤ → Check
  set_socket_tcp_user_timeout fd timeout = succeed

  unfoldable pub set_socket_no_sigpipe_if_possible : ℕ → Check
  set_socket_no_sigpipe_if_possible fd = succeed

  unfoldable pub set_socket_snd_timeout : ℕ → ℕ → Check
  set_socket_snd_timeout fd ms = set_timeout os fd snd_timeo ms

  unfoldable pub set_socket_rcv_timeout : ℕ → ℕ → Check
  set_socket_rcv_timeout fd ms = set_timeout os fd rcv_timeo ms

  -- `DisconnectEx` is called if it is found.
  disconnect : ℕ → ℤ × Trace → Trace
  unfolding call
  disconnect fd (pos zero, t) = (call os (disconnect_ex fd) t).1
  disconnect fd (pos (suc n), t) = t
  disconnect fd (negsuc n, t) = t

  -- `raptor_set_socket_shutdown`
  unfoldable pub set_socket_shutdown : ℕ → Trace → Trace
  unfolding call disconnect
  set_socket_shutdown fd t =
      (call os (close_fd fd) (disconnect fd (call os (get_function fd fn_disconnect_ex) t))).1

  -- The last statements of `raptor_create_dualstack_socket`.
  create_in : ℕ → Trace → Created × Trace
  unfolding call
  create_in family t =
      let (fd, t') = call os (open_socket family) t in
      (created (if_valid family fd) (if family == af_inet then mode_ipv4 else mode_none) fd, t')

  close_if_valid : ℤ → Trace → Trace
  unfolding call
  close_if_valid (pos fd) t = (call os (close_fd fd) t).1
  close_if_valid (negsuc n) t = t

  -- A socket of IPv6 that is no dualstack socket.
  create_other : ResolvedAddress → ℤ → Trace → Created × Trace
  unfolding close_if_valid create_in
  create_other addr fd t =
      if is_some (sockaddr_is_v4mapped addr)
      then create_in af_inet (close_if_valid fd t)
      else (created (if_valid af_inet6 fd) mode_ipv6 fd, t)

  create_v6_with : ResolvedAddress → ℕ → Outcome → Created × Trace
  unfolding create_other
  create_v6_with addr fd (none, t) = (created none mode_dualstack (pos fd), t)
  create_v6_with addr fd (some e, t) = create_other addr (pos fd) t

  create_v6 : ResolvedAddress → ℤ × Trace → Created × Trace
  unfolding create_v6_with create_other
  create_v6 addr (pos fd, t) = create_v6_with addr fd (set_socket_ipv6_only os fd false t)
  create_v6 addr (negsuc n, t) = create_other addr (negsuc n) t

  unfoldable pub create_dualstack_socket : ResolvedAddress → Trace → Created × Trace
  unfolding create_v6 create_in call
  create_dualstack_socket addr t =
      if sockaddr_get_family addr == af_inet6
      then create_v6 addr (call os (open_socket af_inet6) t)
      else create_in (sockaddr_get_family addr) t

  -- `raptor_tcp_prepare_socket`
  unfoldable pub tcp_prepare_socket : ℕ → ℤ → Check
  tcp_prepare_socket fd timeout =
      set_socket_nonblocking fd true
      >> set_socket_ipv6_only os fd false
      >> set_socket_low_latency fd true
      >> set_socket_tcp_user_timeout fd timeout

  -- `raptor_tcp_server_prepare_socket`: the socket is closed on error.
  unfoldable pub tcp_server_prepare_socket : ℕ → ResolvedAddress → Check
  unfolding tcp_prepare_socket
  tcp_server_prepare_socket fd addr t = closing_on_error os fd (
      (tcp_prepare_socket fd (pos 0)
          >> calling os (bind_to fd addr)
          >> calling os (listen_on fd)
          >> calling os (name_of fd))
        t)

module _ (ntohs htons : ℕ → ℕ) where
  -- A wildcard of either family stands for the one of IPv6; a port has 16 bits.
  wildcard_address : ResolvedAddress → Option ℕ → ResolvedAddress
  wildcard_address addr none = addr
  wildcard_address addr (some port) = elim (sockaddr_make_wildcard6 htons (pos port)) [
    | none ↦ addr
    | some w ↦ w
  ]

  unfoldable pub socket_address : ResolvedAddress → ResolvedAddress
  unfolding wildcard_address
  socket_address addr =
      wildcard_address (mapped_address addr) (sockaddr_is_wildcard ntohs (mapped_address addr))

  -- `raptor_create_socket`, with the address that it fills in.
  unfoldable pub create_socket : Os → ResolvedAddress → Trace → (ResolvedAddress × Created) × Trace
  create_socket os addr t =
      let r = create_dualstack_socket os (socket_address addr) t in
      ((socket_address addr, r.0), r.1)
