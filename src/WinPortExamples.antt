-- ===== src/WinPortExamples.antt =====
-- The theorems on rings, and on connecting, listening and completions on Windows, at concrete inputs.
use raptor_lite.Common.{
  ◌+◌, ◌≡◌, refl, true, false, not, none, some, List, [], ◌∷◌, ◌==◌, arith, if◌then◌else◌,
}
use Prim.Native.Nat.{bit_and}
use raptor_lite.Common.Int.{ℤ, pos, negsuc}
use raptor_lite.Slice.{bytes_eq}
use raptor_lite.Address.{
  sockaddr_get_family, sockaddr_is_wildcard, normalized, sockaddr_is_v4mapped, sockaddr_to_v4mapped,
  all_zero, sockaddr_make_wildcard6, ResolvedAddress, resolved, in4, sockaddr_in_size,
}
use raptor_lite.ListEntry.{Store, list_init}
use raptor_lite.ListEntry.Ring.{IsRing, init-IsRing}
use raptor_lite.ListEntry.Refine.{
  ListOp, push_front, push_back, remove, pop_front, pop_back, stores, lists, stores-Does,
}
use raptor_lite.Sockets.{
  set_socket_ipv6_only, Trace, Call, posix, open_socket, connect_ex, Os, call,
}
use raptor_lite.Sockets.Opened.{without, opened}
use raptor_lite.Connector.{Notice, connected}
use raptor_lite.WinConnector
use raptor_lite.WinSockets.{
  socket_address, tcp_prepare_socket, set_socket_nonblocking, set_socket_low_latency,
  set_socket_tcp_user_timeout, create_socket, create_dualstack_socket,
}
use raptor_lite.WinConnector.{
  connect, internal_connect, WinConnector, start_connecting, on_connect_event, shutdown_connector,
}
use raptor_lite.WinConnector.Records.{world, Owns, Move, connects, completes}
use raptor_lite.WinConnector.Owned.{moves, EndsOwned, moves-EndsOwned}
use raptor_lite.WinConnector.Dangling.{connect-shutdown}
use raptor_lite.WinListener.{WinListener, faulted}
use raptor_lite.WinListener.Running.{Choices, add_listening_port, shutdown_listener}
use raptor_lite.WinListener.FirstPort.{FirstPort, add_listening_port-FirstPort}
use raptor_lite.WinListener.Stopping.{shutdown_listener-faulted}
use raptor_lite.WinPolling.{
  connect_event, error_event, error_code_of, Overlapped, EventDetail, new_adaptor, add, delete,
  route,
}
use raptor_lite.WinPolling.Routing.{
  Change, registers, drops, changes, completion, event_for, route-changes, route-on_connect_event,
}

abbrev blank : Store
blank = record { prev = λ e. 0; next = λ e. 0 }

abbrev list_ops : List ListOp
list_ops =
    push_back 2 ∷ push_front 3 ∷ push_back 4 ∷ remove 2 ∷ pop_back ∷ pop_front ∷ pop_front ∷ []

stores-Does_example :
    ((stores 1 list_ops (list_init blank 1)).0 ≡ (lists list_ops []).0)
    × IsRing (stores 1 list_ops (list_init blank 1)).1 1 (lists list_ops []).1
stores-Does_example =
    stores-Does 1 list_ops (list_init blank 1) [] (omega arith) (init-IsRing blank 1)

-- A system where each socket is 7, `ConnectEx` is pending or fails, and all other calls succeed.
abbrev answers : Trace → Call → ℤ
answers t (open_socket f) = pos 7
answers t (connect_ex fd addr) = negsuc 0
answers t c = pos 0

abbrev local : ResolvedAddress
local = resolved (in4 20480 (127 ∷ 0 ∷ 0 ∷ 1 ∷ [])) sockaddr_in_size

abbrev system : Os
system = record { answer = answers; bound_to = λ t fd. local }

abbrev idle : WinConnector
idle = record {
  records = [];
  heap = λ id. none;
  is_shut = false;
  has_connect_ex = false;
  user_timeout = pos 0;
  counter = 0;
}

idle-Owns : Owns (world idle [] [])
idle-Owns = record { live = tt; apart = λ n. omega arith; owned = λ n. omega arith }

abbrev connection_made : List Move
connection_made = connects true (some (local ∷ [])) 3 5 ∷ completes false true 3 [] ∷ []

moves-EndsOwned_example :
    EndsOwned system
      (λ p. p)
      (λ p. p)
      (moves system (λ p. p) (λ p. p) connection_made (world idle [] []))
unfolding WinConnector.Owned.move connect internal_connect create_socket create_dualstack_socket
    sockaddr_get_family socket_address sockaddr_is_wildcard normalized sockaddr_is_v4mapped
    sockaddr_to_v4mapped bytes_eq all_zero set_socket_ipv6_only tcp_prepare_socket
    set_socket_nonblocking set_socket_low_latency set_socket_tcp_user_timeout
    sockaddr_make_wildcard6 on_connect_event
moves-EndsOwned_example =
    moves-EndsOwned system (λ p. p) (λ p. p) connection_made (world idle [] []) idle-Owns
      ((refl, refl), (omega arith, tt))

connect-shutdown_example :
    let r = start_connecting system false 3 7 5 local idle [] in
    (r.0.1 ≡ some (posix (connect_ex 7 local)))
    × (opened r.1 ≡ without 7 [])
    × ((u : Trace) → shutdown_connector system r.0.0 u ≡ none)
unfolding call
connect-shutdown_example = connect-shutdown system 3 7 5 local idle [] 0 refl refl

abbrev choices : Choices
choices = record { pending = λ t. true; addresses = λ k. k + 100; nodes = λ k. k + 200 }

abbrev listener : WinListener
listener = record {
  heads = [];
  links = blank;
  objects = λ id. none;
  is_shut = false;
  has_accept_ex = false;
  has_addresses = false;
  threads = 1;
}

add_listening_port-FirstPort_example :
    FirstPort choices listener []
      (add_listening_port system (λ p. p) (λ p. p) choices local listener [])
add_listening_port-FirstPort_example =
    add_listening_port-FirstPort system (λ p. p) (λ p. p) choices local listener [] refl
      (λ n. ground arith)

-- A listener with an empty ring.
abbrev one_head : WinListener
one_head = record listener {
  heads = record { head = 100; listen_fd = 7 } ∷ [];
  links = list_init blank 100;
}

shutdown_listener-faulted_example : shutdown_listener system 1 900 one_head [] ≡ faulted
shutdown_listener-faulted_example =
    shutdown_listener-faulted system 1 900 one_head (record { head = 100; listen_fd = 7 }) [] [] []
      refl refl (init-IsRing blank 100) (omega arith) refl (omega arith)

abbrev connecting : Overlapped
connecting = record { address = 3; is_exit = false; event_type = connect_event; handle_id = 0 }

abbrev other_sockets : List Change
other_sockets = registers 8 8 connect_event 2 ∷ drops 9 0 ∷ []

route-changes_example :
    let b = changes other_sockets (add 7 7 connect_event 1 new_adaptor) in
    (route (completion true 4 7 0 connecting) b ≡ some (1, event_for true 4 7 0 connecting))
    × (route (completion true 4 7 0 connecting) (delete 7 0 b) ≡ none)
route-changes_example =
    route-changes 7 7 connect_event 1 other_sockets new_adaptor true 4 0 connecting
      (refl, (refl, tt)) refl refl refl

-- With a record at the address 3.
abbrev waiting : WinConnector
waiting = record idle {
  records = 3 ∷ [];
  heap = λ id.
      if id == 3 then some (record { fd = 7; user = 5; handle_id = 0; addr = local }) else none;
}

route-on_connect_event_example :
    (d : EventDetail) × (route
        (completion false 0 7 1225 connecting)
        (changes other_sockets (add 7 7 connect_event 1 new_adaptor))
      ≡ some (1, d))
    × (d.error_code ≡ error_code_of 1225)
    × (r : (WinConnector × List Notice) × Trace) × (on_connect_event system
          (not (bit_and d.event_type error_event == 0))
          true
          d.address
          []
          waiting
          []
        ≡ some r)
    × (r.0.1 ≡ connected 7 5 ∷ [])
route-on_connect_event_example =
    route-on_connect_event system 7 connect_event 1 other_sockets new_adaptor 0 1225 connecting true
      [] waiting [] (record { fd = 7; user = 5; handle_id = 0; addr = local }) (refl, (refl, tt))
      refl refl refl refl
