-- ===== src/Connector.antt =====
-- src/linux/tcp_connector.cc: connections that are being made. A record of one is named by its address,
-- `id`. The resolver, the handler and the number of times that `connect` is interrupted are parameters.
pub mod Owned
use raptor_lite.Common.{
  ℕ, zero, suc, ◌+◌, Bool, true, false, not, Option, none, some, List, [], ◌∷◌, ◌==◌, if◌then◌else◌,
}
use raptor_lite.Common.Int.{ℤ, pos, negsuc}
use raptor_lite.Address.{ResolvedAddress}
use raptor_lite.Property.{Property, check_value, to_bool, to_int32}
use raptor_lite.Sockets.{
  Os, Trace, Check, Fault, posix, connect_to, name_of, get_option, so_error, close_fd, poll_add,
  poll_remove, call, set_socket_reuse_addr, set_socket_low_latency, set_socket_snd_timeout,
  set_socket_rcv_timeout, set_socket_nonblocking, set_socket_shutdown, tcp_client_prepare_socket,
}

-- `async_connect_record_entry`
pub record Entry : Type 0 where
  pub id : ℕ
  pub fd : ℕ
  pub user : ℕ
  pub addr : ResolvedAddress

pub record Connector : Type 0 where
  pub records : List Entry
  pub is_shut : Bool
  pub user_timeout : ℤ

-- `TcpConnector::TcpConnector`
abbrev pub new_connector : Connector
new_connector = record { records = []; is_shut = true; user_timeout = pos 0 }

-- `Init` and `Start`: the second part says whether there is no error. `polls` says whether the poller
-- could be initialised or started.
unfoldable pub init_connector : (polls : Bool) → ℤ → Connector → Connector × Bool
init_connector polls timeout s =
    if s.is_shut
    then (if polls
        then (record s { user_timeout = timeout; is_shut = false }, true)
        else (s, false))
    else (s, false)

unfoldable pub start_connector : (polls : Bool) → Connector → Bool
start_connector polls s = if s.is_shut then false else polls

-- The options that `ProcessProperty` sets where the table asks for it; errors are not looked at.
abbrev pub when_false : Option Bool → Check → Trace → Trace
when_false none m t = t
when_false (some true) m t = t
when_false (some false) m t = (m t).1

abbrev pub when_positive : Option ℤ → (ℕ → Check) → Trace → Trace
when_positive none m t = t
when_positive (some (negsuc n)) m t = t
when_positive (some (pos zero)) m t = t
when_positive (some (pos (suc n))) m t = (m (suc n) t).1

-- What the application is told: `OnConnect`, or `OnErrorOccurred`.
pub data Notice : Type 0 where
  connected : (fd user : ℕ) → Notice
  error_occurred : (fd : ℕ) → Notice

pub data ConnectError : Type 0 where
  unresolved : ConnectError
  no_address : ConnectError
  failed : Fault → ConnectError

-- What `errno` is behind the loop of `connect`.
pub data Errno : Type 0 where
  would_block in_progress other_error : Errno

abbrev pub is_pending : Errno → Bool
is_pending would_block = true
is_pending in_progress = true
is_pending other_error = false

-- The record of an event, and the others.
abbrev pub put_back : Entry → Option (Entry × List Entry) → Option (Entry × List Entry)
put_back e none = none
put_back e (some (f, es)) = some (f, e ∷ es)

unfoldable pub take_record : ℕ → List Entry → Option (Entry × List Entry)
take_record id [] = none
take_record id (e ∷ es) =
    let rest = put_back e (take_record id es) in if e.id == id then some (e, es) else rest

module _ (os : Os) where
  unfoldable pub process_property : ℕ → Property → Trace → Trace
  process_property fd p t =
      let t1 =
        when_false (check_value to_bool p "SocketReuseAddress") (set_socket_reuse_addr os fd false)
          t in
      let t2 =
        when_false (check_value to_bool p "SocketLowLatency") (set_socket_low_latency os fd false)
          t1 in
      let t3 =
        when_positive (check_value to_int32 p "SocketSendTimeoutMs") (set_socket_snd_timeout os fd)
          t2 in
      let t4 =
        when_positive (check_value to_int32 p "SocketRecvTimeoutMs") (set_socket_rcv_timeout os fd)
          t3 in
      when_false (check_value to_bool p "SocketNonBlocking") (set_socket_nonblocking os fd false) t4

  unfoldable pub close_all : List Entry → Trace → Trace
  close_all [] t = t
  close_all (e ∷ es) t = close_all es (call os (close_fd e.fd) t).1

  -- `Shutdown`
  unfoldable pub shutdown_connector : Connector → Trace → Connector × Trace
  unfolding close_all
  shutdown_connector s t =
      if s.is_shut
      then (s, t)
      else (record s { is_shut = true; records = [] }, close_all s.records t)

  -- `do … while (err < 0 && errno == EINTR)`: all calls but the last are interrupted.
  unfoldable pub connect_loop : (interrupts : ℕ) → ℕ → ResolvedAddress → Trace → Trace
  connect_loop zero fd addr t = (call os (connect_to fd addr) t).1
  connect_loop (suc n) fd addr t = connect_loop n fd addr (call os (connect_to fd addr) t).1

  unfoldable pub connecting :
      (interrupts : ℕ)
      → Errno
      → (id user : ℕ) → Connector
      → (Option Fault × ResolvedAddress × ℕ) × Trace
      → (Connector × Option Fault) × Trace
  unfolding connect_loop
  connecting interrupts errno id user s ((some e, addr, fd), t) = ((s, some e), t)
  connecting interrupts errno id user s ((none, addr, fd), t) =
      let t' = connect_loop interrupts fd addr t in
      if is_pending errno
      then (
        (
          record s { records = record { id = id; fd = fd; user = user; addr = addr } ∷ s.records },
          none,
        ),
        (call os (poll_add fd) t').1,
      )
      else ((s, some (posix (connect_to fd addr))), set_socket_shutdown os (pos fd) t')

  -- `AsyncConnect`
  unfoldable pub async_connect :
      (interrupts : ℕ)
      → Errno
      → ResolvedAddress
      → (id user : ℕ) → ℤ
      → Connector
      → Trace
      → (Connector × Option Fault) × Trace
  unfolding connecting
  async_connect interrupts errno addr id user timeout s t =
      connecting interrupts errno id user s (tcp_client_prepare_socket os addr timeout t)

  abbrev pub as_error : Option Fault → Option ConnectError
  as_error none = none
  as_error (some e) = some (failed e)

  -- `Connect`, with the addresses that the name resolves to.
  unfoldable pub connect :
      (interrupts : ℕ)
      → Errno
      → (resolved : Option (List ResolvedAddress)) → (id user : ℕ) → Connector
      → Trace
      → (Connector × Option ConnectError) × Trace
  unfolding async_connect
  connect interrupts errno none id user s t = ((s, some unresolved), t)
  connect interrupts errno (some []) id user s t = ((s, some no_address), t)
  connect interrupts errno (some (addr ∷ addrs)) id user s t =
      let r = async_connect interrupts errno addr id user s.user_timeout s t in
      ((r.0.0, as_error r.0.1), r.1)

  unfoldable pub event_of :
      (sends online : Bool)
      → Property
      → Connector
      → Trace
      → Entry × List Entry
      → (Connector × List Notice) × Trace
  unfolding process_property
  event_of sends online p s t (e, es) =
      let t' = (call os (poll_remove e.fd) (call os (name_of e.fd) t).1).1 in
      let s' = record s { records = es } in
      if sends
      then ((s', connected e.fd e.user ∷ []), (if online then process_property e.fd p t' else t'))
      else (
        (s', error_occurred e.fd ∷ []),
        (call os (close_fd e.fd) (call os (get_option e.fd so_error) t').1).1,
      )

  -- `OnEventProcess` for the record `id`: `sends` is the test of `kSendEvent`; `online` and `p` are what
  -- the handler leaves of the endpoint and of the properties. `none` is an event without a record.
  unfoldable pub on_connect_event :
      (id : ℕ) (sends online : Bool)
      → Property
      → Connector
      → Trace
      → Option ((Connector × List Notice) × Trace)
  unfolding event_of take_record
  on_connect_event id sends online p s t = elim (take_record id s.records) [
    | none ↦ none
    | some found ↦ some (event_of sends online p s t found)
  ]
