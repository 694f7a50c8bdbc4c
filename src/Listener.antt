-- ===== src/Listener.antt =====
-- src/linux/tcp_listener.cc: sockets that listen, and the connections that they accept. The list of
-- listeners is the list of its nodes in order, of which a node is named by its address, `id`.
pub mod Owned
use raptor_lite.Common.{
  ℕ, zero, suc, Bool, true, false, Option, none, some, List, [], ◌∷◌, ◌++◌, ◌==◌, if◌then◌else◌,
}
use raptor_lite.Common.Int.{ℤ, pos, negsuc}
use raptor_lite.Address.{ResolvedAddress}
use raptor_lite.Endpoint.{Endpoint, new_endpoint, set_listen_port}
use raptor_lite.Property.{Property}
use raptor_lite.Connector.{process_property}
use raptor_lite.Sockets.{
  Os, Trace, Fault, posix, open_socket, accept_on, close_fd, poll_add, call, Mode, Outcome,
  create_dualstack_socket, tcp_server_prepare_socket, bound_port,
}

-- `ListenerObject`
pub record Node : Type 0 where
  pub id : ℕ
  pub addr : ResolvedAddress
  pub listen_fd : ℕ
  pub port : ℕ
  pub mode : Mode

pub record Listener : Type 0 where
  pub nodes : List Node
  pub is_shut : Bool

-- `TcpListener::TcpListener`
abbrev pub new_listener : Listener
new_listener = record { nodes = []; is_shut = true }

-- `Init` and `Start`: the second part says whether there is no error.
unfoldable pub init_listener : (polls : Bool) → Listener → Listener × Bool
init_listener polls s =
    if s.is_shut
    then (if polls then (record s { is_shut = false }, true) else (s, false))
    else (s, false)

unfoldable pub start_listener : (polls : Bool) → Listener → Bool
start_listener polls s = if s.is_shut then false else polls

pub data ListenError : Type 0 where
  uninitialized : ListenError
  refused : Fault → ListenError

-- The node of an event.
unfoldable pub node_of : ℕ → List Node → Option Node
node_of id [] = none
node_of id (n ∷ ns) = let rest = node_of id ns in if n.id == id then some n else rest

-- `ProcessProperty`, which is the same text as in src/linux/tcp_connector.cc.
abbrev pub process_accepted : Os → ℕ → Property → Trace → Trace
process_accepted os fd p t = process_property os fd p t

module _ (os : Os) (ntohs : ℕ → ℕ) where
  -- Behind `raptor_tcp_server_prepare_socket`: the node is pushed at the back and added to the poller.
  unfoldable pub listening :
      (id fd : ℕ)
      → Mode
      → ResolvedAddress
      → Listener
      → Outcome
      → (Listener × Option ListenError) × Trace
  listening id fd mode addr s (some e, t) = ((s, some (refused e)), t)
  listening id fd mode addr s (none, t) = (
    (
      record s {
        nodes =
            s.nodes
            ++ record {
              id = id;
              addr = addr;
              listen_fd = fd;
              port = bound_port os ntohs fd t;
              mode = mode;
            }
              ∷ [];
      },
      none,
    ),
    (call os (poll_add fd) t).1,
  )

  -- A descriptor without an error is not negative.
  unfoldable pub listen_with :
      ℕ
      → ResolvedAddress
      → Listener
      → Option Fault × Mode × ℤ
      → Trace
      → (Listener × Option ListenError) × Trace
  unfolding listening
  listen_with id addr s (some e, mode, fd) t = ((s, some (refused e)), t)
  listen_with id addr s (none, mode, pos fd) t =
      listening id fd mode addr s (tcp_server_prepare_socket os fd addr true t)
  listen_with id addr s (none, mode, negsuc n) t = ((s, some (refused (posix (open_socket 0)))), t)

  -- `AddListeningPort`
  unfoldable pub add_listening_port :
      (id : ℕ) → ResolvedAddress → Listener → Trace → (Listener × Option ListenError) × Trace
  unfolding listen_with
  add_listening_port id addr s t =
      let r = create_dualstack_socket os addr t in
      if s.is_shut
      then ((s, some uninitialized), t)
      else listen_with id addr s (r.0.status, r.0.mode, r.0.new_fd) r.1

  unfoldable pub close_nodes : List Node → Trace → Trace
  close_nodes [] t = t
  close_nodes (n ∷ ns) t = close_nodes ns (call os (close_fd n.listen_fd) t).1

  -- `Shutdown`
  unfoldable pub shutdown_listener : Listener → Trace → Listener × Trace
  unfolding close_nodes
  shutdown_listener s t =
      if s.is_shut then (s, t) else (record s { is_shut = true; nodes = [] }, close_nodes s.nodes t)

  -- What follows `AcceptEx`: the endpoint that `OnAccept` is given, with the port of the listener.
  unfoldable pub accepted : (online : Bool) → Property → Node → ℤ × Trace → Option Endpoint × Trace
  accepted online p n (negsuc k, t) = (none, t)
  accepted online p n (pos zero, t) = (none, t)
  accepted online p n (pos (suc fd), t) = (
    some (set_listen_port (new_endpoint (suc fd)) n.port),
    if online then process_accepted os (suc fd) p t else t,
  )

  -- `OnEventProcess` for a node: `is_error` is the test of `kErrorEvent`; `online` and `p` are what the
  -- handler leaves of the endpoint and of the properties.
  unfoldable pub on_accept_event :
      (is_error online : Bool) → Property → Node → Trace → Option Endpoint × Trace
  unfolding accepted
  on_accept_event is_error online p n t =
      if is_error then (none, t) else accepted online p n (call os (accept_on n.listen_fd) t)
