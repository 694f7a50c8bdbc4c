-- ===== src/Sockets.antt =====
-- src/linux/socket_setting.cc: the making and setting up of sockets. The system calls are a parameter:
-- each is answered by `Os`, which may look at all the calls before it, and what has been called is a
-- trace, the last call first.
pub mod Opened
pub mod Counted
use Prim.Native.Nat.{bit_and, bit_or}
use raptor_lite.Common.{
  ℕ, zero, suc, ◌+◌, ◌-◌, ◌*◌, ◌/◌, ◌^◌, Bool, true, false, not, Option, none, some, List, [], ◌∷◌,
  ◌==◌, if◌then◌else◌, is_some,
}
use raptor_lite.Common.Int.{ℤ, pos, negsuc}
use raptor_lite.Address.{
  ResolvedAddress, af_unix, af_inet, af_inet6, sockaddr_get_family, sockaddr_get_port,
  sockaddr_is_v4mapped, sockaddr_to_v4mapped,
}

-- The options that the code sets.
pub data Opt : Type 0 where
  reuse_addr tcp_nodelay reuse_port snd_timeo rcv_timeo v6_only tcp_user_timeout so_error
        update_context :
      Opt

-- The functions of Windows that are looked up with WSAIoctl.
pub data Extension : Type 0 where
  fn_connect_ex fn_disconnect_ex fn_accept_ex fn_accept_addresses : Extension

-- `socket`, `setsockopt` of an integer and of a `timeval`, `getsockopt`, `fcntl` with F_GETFL, F_SETFL,
-- F_GETFD and F_SETFD, `bind`, `listen`, `accept4`, `getsockname`, `connect`, `shutdown`, `close`, and the two calls
-- of the poller. The last five lines are those of Windows: `WSAIoctl` with FIONBIO and for a function,
-- `DisconnectEx`, `ConnectEx`, and `AcceptEx` of a listening and a new socket.
pub data Call : Type 0 where
  open_socket : (family : ℕ) → Call
  set_option : (fd : ℕ) (opt : Opt) (value : ℕ) → Call
  set_time : (fd : ℕ) (opt : Opt) (sec usec : ℕ) → Call
  get_option : (fd : ℕ) (opt : Opt) → Call
  get_flags get_fd_flags : (fd : ℕ) → Call
  set_flags set_fd_flags : (fd flags : ℕ) → Call
  bind_to connect_to : (fd : ℕ) (addr : ResolvedAddress) → Call
  listen_on accept_on : (fd : ℕ) → Call
  name_of shut close_fd poll_add poll_remove : (fd : ℕ) → Call
  set_non_blocking : (fd on : ℕ) → Call
  get_function : (fd : ℕ) → Extension → Call
  disconnect_ex : (fd : ℕ) → Call
  connect_ex : (fd : ℕ) (addr : ResolvedAddress) → Call
  accept_ex : (fd new_fd : ℕ) → Call

abbrev pub Trace : Type 0
Trace = List (Call × ℤ)

-- A negative answer is a failure; `getsockopt` answers with the value. `bound_to` is the address that
-- `getsockname` fills in.
pub record Os : Type 0 where
  pub answer : Trace → Call → ℤ
  pub bound_to : Trace → ℕ → ResolvedAddress

-- `raptor_error`, where `none` is RAPTOR_ERROR_NONE: RAPTOR_POSIX_ERROR behind a call, or an option that
-- was not taken.
pub data Fault : Type 0 where
  posix : Call → Fault
  not_taken : Opt → Fault

abbrev pub Outcome : Type 0
Outcome = Option Fault × Trace

abbrev pub Check : Type 0
Check = Trace → Outcome

abbrev pub succeed : Check
succeed t = (none, t)

-- `if (err != RAPTOR_ERROR_NONE) goto error;` between two parts.
abbrev pub next : Check → Outcome → Outcome
next k (none, t) = k t
next k (some e, t) = (some e, t)

infixr 5 ◌>>◌
abbrev pub ◌>>◌ : Check → Check → Check
◌>>◌ m k t = next k (m t)

abbrev pub unless_negative : Fault → (ℕ → Check) → ℤ × Trace → Outcome
unless_negative e k (pos n, t) = k n t
unless_negative e k (negsuc n, t) = (some e, t)

abbrev pub if_zero : Fault → Check → ℤ × Trace → Outcome
if_zero e k (pos zero, t) = k t
if_zero e k (pos (suc n), t) = (some e, t)
if_zero e k (negsuc n, t) = (some e, t)

-- O_NONBLOCK, FD_CLOEXEC, and the complement of a flag in 32 bits.
abbrev pub o_nonblock : ℕ
o_nonblock = 2048

abbrev pub fd_cloexec : ℕ
fd_cloexec = 1

abbrev pub with_flag : Bool → ℕ → ℕ → ℕ
with_flag on flag old = if on then bit_or old flag else bit_and old (2 ^ 32 - 1 - flag)

abbrev pub as_int : Bool → ℕ
as_int on = if on then 1 else 0

abbrev pub is_unix : ResolvedAddress → Bool
is_unix addr = sockaddr_get_family addr == af_unix

-- The last test of the setting of an option.
abbrev pub checked : Bool → Opt → Check
checked true opt t = (none, t)
checked false opt t = (some (not_taken opt), t)

-- `raptor_dualstack_mode`
pub data Mode : Type 0 where
  mode_none mode_ipv4 mode_ipv6 mode_dualstack : Mode

-- What `raptor_create_dualstack_socket` returns and fills in.
pub record Created : Type 0 where
  pub status : Option Fault
  pub mode : Mode
  pub new_fd : ℤ

abbrev pub created : Option Fault → Mode → ℤ → Created
created status mode new_fd = record { status = status; mode = mode; new_fd = new_fd }

-- `if (*newfd <= 0) return RAPTOR_POSIX_ERROR("socket")`
abbrev pub if_positive : ℕ → ℤ → Option Fault
if_positive family (pos zero) = some (posix (open_socket family))
if_positive family (pos (suc n)) = none
if_positive family (negsuc n) = some (posix (open_socket family))

abbrev pub default_tcp_user_timeout : ℕ
default_tcp_user_timeout = 20000

-- A timeout that is not positive stands for the default.
abbrev pub user_timeout_of : ℤ → ℕ
user_timeout_of (pos zero) = default_tcp_user_timeout
user_timeout_of (pos (suc n)) = suc n
user_timeout_of (negsuc n) = default_tcp_user_timeout

-- The addresses that a client's socket connects to.
abbrev pub dsmode_address : Mode → ResolvedAddress → ResolvedAddress → ResolvedAddress
dsmode_address mode_ipv4 addr mapped = elim (sockaddr_is_v4mapped addr) [ none ↦ addr | some q ↦ q ]
dsmode_address mode_none addr mapped = mapped
dsmode_address mode_ipv6 addr mapped = mapped
dsmode_address mode_dualstack addr mapped = mapped

abbrev pub mapped_address : ResolvedAddress → ResolvedAddress
mapped_address addr = elim (sockaddr_to_v4mapped addr) [ none ↦ addr | some q ↦ q ]

module _ (os : Os) where
  unfoldable pub call : Call → Trace → ℤ × Trace
  call c t = (os.answer t c, (c, os.answer t c) ∷ t)

  -- `raptor_set_socket_nonblocking` and `raptor_set_socket_cloexec`
  unfoldable pub set_socket_nonblocking : ℕ → Bool → Check
  unfolding call
  set_socket_nonblocking fd on t =
      unless_negative (posix (get_flags fd))
        (λ old t'.
          if_zero (posix (set_flags fd (with_flag on o_nonblock old))) succeed
            (call (set_flags fd (with_flag on o_nonblock old)) t'))
        (call (get_flags fd) t)

  unfoldable pub set_socket_cloexec : ℕ → Bool → Check
  unfolding call
  set_socket_cloexec fd on t =
      unless_negative (posix (get_fd_flags fd))
        (λ old t'.
          if_zero (posix (set_fd_flags fd (with_flag on fd_cloexec old))) succeed
            (call (set_fd_flags fd (with_flag on fd_cloexec old)) t'))
        (call (get_fd_flags fd) t)

  -- An option is set, and read again.
  unfoldable pub set_checked : ℕ → Opt → Bool → Check
  unfolding call
  set_checked fd opt on t =
      if_zero (posix (set_option fd opt (as_int on)))
        (λ t'.
          unless_negative (posix (get_option fd opt))
            (λ value. checked (as_int (not (value == 0)) == as_int on) opt)
            (call (get_option fd opt) t'))
        (call (set_option fd opt (as_int on)) t)

  unfoldable pub set_socket_reuse_addr : ℕ → Bool → Check
  unfolding set_checked
  set_socket_reuse_addr fd on = set_checked fd reuse_addr on

  unfoldable pub set_socket_low_latency : ℕ → Bool → Check
  unfolding set_checked
  set_socket_low_latency fd on = set_checked fd tcp_nodelay on

  unfoldable pub set_socket_reuse_port : ℕ → Bool → Check
  unfolding set_checked
  set_socket_reuse_port fd on = set_checked fd reuse_port on

  unfoldable pub set_timeout : ℕ → Opt → ℕ → Check
  unfolding call
  set_timeout fd opt ms t =
      let tv : Call = set_time fd opt (ms / 1000) ((ms - ms / 1000 * 1000) * 1000) in
      if_zero (posix tv) succeed (call tv t)

  unfoldable pub set_socket_snd_timeout : ℕ → ℕ → Check
  unfolding set_timeout
  set_socket_snd_timeout fd ms = set_timeout fd snd_timeo ms

  unfoldable pub set_socket_rcv_timeout : ℕ → ℕ → Check
  unfolding set_timeout
  set_socket_rcv_timeout fd ms = set_timeout fd rcv_timeo ms

  unfoldable pub set_socket_ipv6_only : ℕ → Bool → Check
  unfolding call
  set_socket_ipv6_only fd only t =
      if_zero (posix (set_option fd v6_only (as_int only))) succeed
        (call (set_option fd v6_only (as_int only)) t)

  -- `raptor_set_socket_shutdown`
  unfoldable pub set_socket_shutdown : ℤ → Trace → Trace
  unfolding call
  set_socket_shutdown (negsuc n) t = t
  set_socket_shutdown (pos fd) t = (call (close_fd fd) (call (shut fd) t).1).1

  -- `raptor_set_socket_tcp_user_timeout` never fails.
  unfoldable pub set_socket_tcp_user_timeout : ℕ → ℕ → Check
  unfolding call
  set_socket_tcp_user_timeout fd timeout t = (
    none,
    (if_zero (posix (set_option fd tcp_user_timeout timeout))
        (λ t'. (none, (call (get_option fd tcp_user_timeout) t').1))
        (call (set_option fd tcp_user_timeout timeout) t)).1,
  )

  -- SO_NOSIGPIPE is not defined on Linux.
  unfoldable pub set_socket_no_sigpipe_if_possible : ℕ → Check
  set_socket_no_sigpipe_if_possible fd = succeed

  close_if_open : ℤ → Trace → Trace
  unfolding call
  close_if_open (pos fd) t = (call (close_fd fd) t).1
  close_if_open (negsuc n) t = t

  -- The last four statements of `raptor_create_dualstack_socket`.
  create_in : ℕ → Trace → Created × Trace
  unfolding call
  create_in family t =
      let (fd, t') = call (open_socket family) t in
      (created (if_positive family fd) (if family == af_inet then mode_ipv4 else mode_none) fd, t')

  -- A socket of IPv6 that is no dualstack socket.
  create_other : ResolvedAddress → ℤ → Trace → Created × Trace
  unfolding close_if_open create_in
  create_other addr fd t =
      if is_some (sockaddr_is_v4mapped addr)
      then create_in af_inet (close_if_open fd t)
      else (created (if_positive af_inet6 fd) mode_ipv6 fd, t)

  create_v6_with : ResolvedAddress → ℕ → Outcome → Created × Trace
  unfolding create_other
  create_v6_with addr fd (none, t) = (created none mode_dualstack (pos fd), t)
  create_v6_with addr fd (some e, t) = create_other addr (pos fd) t

  create_v6 : ResolvedAddress → ℤ × Trace → Created × Trace
  unfolding create_v6_with create_other
  create_v6 addr (pos fd, t) = create_v6_with addr fd (set_socket_ipv6_only fd false t)
  create_v6 addr (negsuc n, t) = create_other addr (negsuc n) t

  -- `raptor_create_dualstack_socket`
  unfoldable pub create_dualstack_socket : ResolvedAddress → Trace → Created × Trace
  unfolding create_v6 create_in call
  create_dualstack_socket addr t =
      if sockaddr_get_family addr == af_inet6
      then create_v6 addr (call (open_socket af_inet6) t)
      else create_in (sockaddr_get_family addr) t

  -- The label `error`: the descriptor is closed.
  unfoldable pub closing_on_error : ℕ → Outcome → Outcome
  unfolding call
  closing_on_error fd (none, t) = (none, t)
  closing_on_error fd (some e, t) = (some e, (call (close_fd fd) t).1)

  unfoldable pub calling : Call → Check
  unfolding call
  calling c t = unless_negative (posix c) (λ n. succeed) (call c t)

  -- `raptor_tcp_server_prepare_socket`, and the port that it fills in.
  unfoldable pub server_settings : ℕ → ResolvedAddress → Bool → Check
  unfolding calling
  server_settings fd addr reuse =
      (if is_unix addr then succeed else if reuse then set_socket_reuse_port fd true else succeed)
      >> set_socket_nonblocking fd true
      >> set_socket_cloexec fd true
      >> (if is_unix addr
          then succeed
          else set_socket_low_latency fd true
            >> set_socket_reuse_addr fd true
            >> set_socket_tcp_user_timeout fd default_tcp_user_timeout)
      >> set_socket_no_sigpipe_if_possible fd
      >> calling (bind_to fd addr)
      >> calling (listen_on fd)
      >> calling (name_of fd)

  unfoldable pub tcp_server_prepare_socket : ℕ → ResolvedAddress → Bool → Check
  unfolding server_settings closing_on_error
  tcp_server_prepare_socket fd addr reuse t = closing_on_error fd (server_settings fd addr reuse t)

  unfoldable pub bound_port : (ntohs : ℕ → ℕ) → ℕ → Trace → ℕ
  bound_port ntohs fd t = sockaddr_get_port ntohs (os.bound_to t fd)

  -- `tcp_client_prepare_socket`
  unfoldable pub client_settings : ℕ → ResolvedAddress → ℕ → Check
  client_settings fd addr timeout =
      set_socket_nonblocking fd true
      >> set_socket_cloexec fd true
      >> (if is_unix addr
          then succeed
          else set_socket_low_latency fd true
            >> set_socket_reuse_addr fd true
            >> set_socket_tcp_user_timeout fd timeout)
      >> set_socket_no_sigpipe_if_possible fd

  unfoldable pub client_prepare : ℕ → ResolvedAddress → ℤ → Check
  unfolding client_settings closing_on_error
  client_prepare fd addr timeout_ms t =
      closing_on_error fd (client_settings fd addr (user_timeout_of timeout_ms) t)

  -- What `raptor_tcp_client_prepare_socket` returns: the status, the address to connect to, and the
  -- descriptor, which is 0 with an error.
  prepared : ResolvedAddress → ℕ → Outcome → (Option Fault × ResolvedAddress × ℕ) × Trace
  prepared mapped fd (none, t) = ((none, mapped, fd), t)
  prepared mapped fd (some e, t) = ((some e, mapped, 0), t)

  -- A descriptor without an error is not negative.
  client_with :
      ResolvedAddress
      → ResolvedAddress
      → ℤ
      → Option Fault × ℤ
      → Trace
      → (Option Fault × ResolvedAddress × ℕ) × Trace
  unfolding prepared
  client_with mapped used timeout_ms (some e, fd) t = ((some e, mapped, 0), t)
  client_with mapped used timeout_ms (none, pos fd) t =
      prepared used fd (client_prepare fd used timeout_ms t)
  client_with mapped used timeout_ms (none, negsuc n) t =
      ((some (posix (open_socket (sockaddr_get_family mapped))), mapped, 0), t)

  unfoldable pub tcp_client_prepare_socket :
      ResolvedAddress → ℤ → Trace → (Option Fault × ResolvedAddress × ℕ) × Trace
  unfolding client_with
  tcp_client_prepare_socket addr timeout_ms t =
      let (r, t') = create_dualstack_socket (mapped_address addr) t in
      client_with (mapped_address addr) (dsmode_address r.mode addr (mapped_address addr))
        timeout_ms (r.status, r.new_fd) t'
