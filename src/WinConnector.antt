-- ===== src/WinConnector.antt =====
-- src/windows/tcp_connector.cc: connections that are being made with `ConnectEx`. A record of one is named
-- by its address, `id`; the allocated ones are in `heap`. `none` is a read or a deletion of a record that
-- is not allocated. The set of records is the list of its members, the latest first.
pub mod Records
pub mod Attempts
pub mod Owned
pub mod Dangling
use raptor_lite.Common.{
  ℕ, zero, suc, ◌+◌, ◌^◌, Bool, true, false, Option, none, some, List, [], ◌∷◌, ◌==◌, if◌then◌else◌,
}
use raptor_lite.Common.Int.{ℤ, pos, negsuc}
use raptor_lite.Words.{u32}
use raptor_lite.Address.{ResolvedAddress, sockaddr_make_wildcard6}
use raptor_lite.Property.{Property, check_value, to_bool, to_int32}
use raptor_lite.Sockets.{
  Os, Trace, Outcome, Check, Fault, posix, next, succeed, ◌>>◌, if_zero, bind_to, name_of, close_fd,
  set_option, update_context, poll_add, poll_remove, get_function, fn_connect_ex, connect_ex,
  Created, call,
}
use raptor_lite.Connector.{
  ConnectError, unresolved, no_address, failed, Notice, connected, error_occurred, when_false,
  when_positive,
}
use raptor_lite.WinSockets.{
  set_socket_reuse_addr, set_socket_low_latency, set_socket_snd_timeout, set_socket_rcv_timeout,
  set_socket_nonblocking, tcp_prepare_socket, create_socket,
}

-- `async_connect_record_entry`
pub record Entry : Type 0 where
  pub fd : ℕ
  pub user : ℕ
  pub handle_id : ℕ
  pub addr : ResolvedAddress

abbrev pub Heap : Type 0
Heap = ℕ → Option Entry

-- `new` and `delete` of the record at an address.
abbrev pub store : Heap → ℕ → Option Entry → Heap
store h id v = λ j. if j == id then v else h j

pub record WinConnector : Type 0 where
  pub records : List ℕ
  pub heap : Heap
  pub is_shut : Bool
  pub has_connect_ex : Bool
  pub user_timeout : ℤ
  pub counter : ℕ

abbrev pub new_connector : WinConnector
new_connector = record {
  records = [];
  heap = λ id. none;
  is_shut = true;
  has_connect_ex = false;
  user_timeout = pos 0;
  counter = 0;
}

-- `Init` and `Start`: the second part says whether there is no error. `polls` says whether the poller
-- could be initialised or started.
unfoldable pub init_connector : (polls : Bool) → ℤ → WinConnector → WinConnector × Bool
init_connector polls timeout s =
    if s.is_shut
    then (if polls
        then (record s { user_timeout = timeout; is_shut = false }, true)
        else (s, false))
    else (s, false)

unfoldable pub start_connector : (polls : Bool) → WinConnector → Bool
start_connector polls s = if s.is_shut then false else polls

-- `erase` of a member, and how many there were.
unfoldable pub erase : ℕ → List ℕ → List ℕ × Bool
erase id [] = ([], false)
erase id (j ∷ js) = let rest = erase id js in if id == j then (js, true) else (j ∷ rest.0, rest.1)

module _ (os : Os) where
  unfoldable pub process_property : ℕ → Property → Trace → Trace
  process_property fd p t =
      let t1 =
        when_false (check_value to_bool p "SocketReuseAddress") (set_socket_reuse_addr os fd false)
          t in
      let t2 =
        when_false (check_value to_bool p "SocketLowLatency") (set_socket_low_latency os fd false)
          t1 in
      let t3 =
        when_positive (check_value to_int32 p "SocketSendTimeoutMs") (set_socket_snd_timeout os fd)
          t2 in
      let t4 =
        when_positive (check_value to_int32 p "SocketRecvTimeoutMs") (set_socket_rcv_timeout os fd)
          t3 in
      when_false (check_value to_bool p "SocketNonBlocking") (set_socket_nonblocking os fd false) t4

  -- The loop of `Shutdown` over the records.
  unfoldable pub close_records : Heap → List ℕ → Trace → Option Trace
  close_records h [] t = some t
  close_records h (id ∷ ids) t = elim (h id) [
    | none ↦ none
    | some e ↦ close_records h ids (call os (poll_remove e.fd) (call os (close_fd e.fd) t).1).1
  ]

  abbrev pub when_closed : WinConnector → Option Trace → Option (WinConnector × Trace)
  when_closed s none = none
  when_closed s (some t) = some (record s { is_shut = true; records = [] }, t)

  -- `Shutdown`: the records are not deleted.
  unfoldable pub shutdown_connector : WinConnector → Trace → Option (WinConnector × Trace)
  unfolding close_records
  shutdown_connector s t =
      if s.is_shut then some (s, t) else when_closed s (close_records s.heap s.records t)

  -- `GetConnectExIfNecessary`, with whether the function is there afterwards.
  unfoldable pub get_connect_ex_if_necessary : Bool → ℕ → Check
  get_connect_ex_if_necessary true fd t = (none, t)
  get_connect_ex_if_necessary false fd t =
      if_zero (posix (get_function fd fn_connect_ex)) succeed
        (call os (get_function fd fn_connect_ex) t)

  -- `bind` to the local wildcard, which there is for port 0: a status other than 0 is an error.
  unfoldable pub bind_local : (htons : ℕ → ℕ) → ℕ → Check
  bind_local htons fd t = elim (sockaddr_make_wildcard6 htons (pos 0)) [
    | none ↦ (none, t)
    | some local ↦ if_zero (posix (bind_to fd local)) succeed (call os (bind_to fd local) t)
  ]

  -- The label `failure` with a socket that is not INVALID_SOCKET, before there is a record in the set.
  abbrev pub give_up : WinConnector → ℕ → Fault → Trace → (WinConnector × Option Fault) × Trace
  give_up s fd e t = ((s, some e), (call os (close_fd fd) t).1)

  -- Behind `ConnectEx`: the record that is deleted on failure stays in the set. `pending` says whether the
  -- last error is ERROR_IO_PENDING.
  unfoldable pub after_connect_ex :
      (pending : Bool)
      → (id fd : ℕ) → ResolvedAddress
      → WinConnector
      → ℤ × Trace
      → (WinConnector × Option Fault) × Trace
  after_connect_ex pending id fd mapped s (pos n, t) = ((s, none), t)
  after_connect_ex pending id fd mapped s (negsuc n, t) =
      if pending
      then ((s, none), t)
      else give_up (record s { heap = store s.heap id none }) fd (posix (connect_ex fd mapped)) t

  -- The new record in the set, with the number of its handle.
  abbrev pub begun : (id fd user : ℕ) → ResolvedAddress → WinConnector → WinConnector
  begun id fd user mapped s =
      let e : Entry = record { fd = fd; user = user; handle_id = s.counter; addr = mapped } in
      record s {
        records = id ∷ s.records;
        heap = store s.heap id (some e);
        has_connect_ex = true;
        counter = u32 (s.counter + 1);
      }

  unfoldable pub start_connecting :
      (pending : Bool)
      → (id fd user : ℕ) → ResolvedAddress
      → WinConnector
      → Trace
      → (WinConnector × Option Fault) × Trace
  unfolding after_connect_ex
  start_connecting pending id fd user mapped s t =
      after_connect_ex pending id fd mapped (begun id fd user mapped s)
        (call os (connect_ex fd mapped) (call os (poll_add fd) t).1)

  -- The settings of the socket, the lookup of `ConnectEx` and `bind`; whether `_connectex` is set is the
  -- first part.
  unfoldable pub settled : (htons : ℕ → ℕ) → ℤ → ℕ → Bool → Trace → Bool × Outcome
  unfolding get_connect_ex_if_necessary bind_local
  settled htons timeout fd has t =
      let o = tcp_prepare_socket os fd timeout t in
      let p = next (get_connect_ex_if_necessary has fd) o in
      (found o.0 p.0, next (bind_local htons fd) p)
    where
      found : Option Fault → Option Fault → Bool
      found none none = true
      found none (some e) = has
      found (some e) f = has

  unfoldable pub with_settings :
      (pending : Bool)
      → (id fd user : ℕ) → ResolvedAddress
      → WinConnector
      → Bool × Outcome
      → (WinConnector × Option Fault) × Trace
  unfolding start_connecting
  with_settings pending id fd user mapped s (has, (none, t)) =
      start_connecting pending id fd user mapped s t
  with_settings pending id fd user mapped s (has, (some e, t)) =
      give_up (record s { has_connect_ex = has }) fd e t

  unfoldable pub with_socket :
      (htons : ℕ → ℕ) (pending : Bool) (id user : ℕ)
      → ResolvedAddress
      → WinConnector
      → Option Fault × ℤ
      → Trace
      → (WinConnector × Option Fault) × Trace
  unfolding with_settings settled
  with_socket htons pending id user mapped s (some e, pos fd) t = give_up s fd e t
  with_socket htons pending id user mapped s (some e, negsuc n) t = ((s, some e), t)
  with_socket htons pending id user mapped s (none, pos fd) t =
      with_settings pending id fd user mapped s (settled htons s.user_timeout fd s.has_connect_ex t)
  with_socket htons pending id user mapped s (none, negsuc n) t =
      ((s, some (posix (connect_ex 0 mapped))), t)

  -- `InternalConnect`, whose timeout is always that of the connector.
  unfoldable pub internal_connect :
      (ntohs htons : ℕ → ℕ) (pending : Bool) (id : ℕ)
      → ResolvedAddress
      → (user : ℕ) → WinConnector
      → Trace
      → (WinConnector × Option Fault) × Trace
  unfolding with_socket
  internal_connect ntohs htons pending id addr user s t =
      let r = create_socket ntohs htons os addr t in
      with_socket htons pending id user r.0.0 s (r.0.1.status, r.0.1.new_fd) r.1

  abbrev pub as_error : Option Fault → Option ConnectError
  as_error none = none
  as_error (some e) = some (failed e)

  -- `Connect`, with the addresses that the name resolves to.
  unfoldable pub connect :
      (ntohs htons : ℕ → ℕ) (pending : Bool) (resolved : Option (List ResolvedAddress))
      (id user : ℕ)
      → WinConnector
      → Trace
      → (WinConnector × Option ConnectError) × Trace
  unfolding internal_connect
  connect ntohs htons pending none id user s t = ((s, some unresolved), t)
  connect ntohs htons pending (some []) id user s t = ((s, some no_address), t)
  connect ntohs htons pending (some (addr ∷ addrs)) id user s t =
      let r = internal_connect ntohs htons pending id addr user s t in
      ((r.0.0, as_error r.0.1), r.1)

  -- The record is deleted if it was in the set.
  unfoldable pub forget : ℕ → WinConnector → WinConnector
  unfolding erase
  forget id s =
      let (ids, there) = erase id s.records in
      record s { records = ids; heap = if there then store s.heap id none else s.heap }

  unfoldable pub completion_of :
      (is_error online : Bool) (id : ℕ)
      → Property
      → WinConnector
      → Trace
      → Entry
      → (WinConnector × List Notice) × Trace
  unfolding process_property forget
  completion_of is_error online id p s t e =
      let t' = (call os (name_of e.fd) t).1 in
      if is_error then ((forget id s, error_occurred e.fd ∷ []), t') else (
        (forget id s, connected e.fd e.user ∷ []),
        (let u = (call os (set_option e.fd update_context 0) t').1 in
            if online then process_property e.fd p u else u),
      )

  -- `OnEventProcess` for the record at `id`: `is_error` is the test of `kErrorEvent`; `online` and `p` are
  -- what the handler leaves of the endpoint and of the properties.
  unfoldable pub on_connect_event :
      (is_error online : Bool) (id : ℕ)
      → Property
      → WinConnector
      → Trace
      → Option ((WinConnector × List Notice) × Trace)
  unfolding completion_of
  on_connect_event is_error online id p s t = elim (s.heap id) [
    | none ↦ none
    | some e ↦ some (completion_of is_error online id p s t e)
  ]
