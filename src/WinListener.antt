-- ===== src/WinListener.antt =====
-- src/windows/tcp_listener.cc: sockets that listen, with accepts that are posted with `AcceptEx`. The
-- accept objects are linked in rings of ListEntry, whose heads stand in the vector of listeners, and an
-- object is named by its address. `addresses` are those of the vector after an element is added, and
-- `local` that of the copy of an element that `Shutdown` makes on its stack.
pub mod Running
pub mod Accepting
pub mod Stopping
pub mod FirstPort
use raptor_lite.Common.{
  ℕ, zero, suc, ◌+◌, Bool, true, false, ◌&&◌, Option, none, some, List, [], ◌∷◌, ◌==◌,
  if◌then◌else◌, length,
}
use raptor_lite.Common.Int.{ℤ, pos, negsuc}
use raptor_lite.Words.{u32}
use raptor_lite.Address.{ResolvedAddress, sockaddr_get_family, sockaddr_get_port}
use raptor_lite.Endpoint.{Endpoint, closed_fd, new_endpoint, set_listen_port}
use raptor_lite.ListEntry.{
  Store, set_next, set_prev, list_init, list_push_back, list_pop_back, list_remove_entry,
}
use raptor_lite.Property.{Property}
use raptor_lite.Listener.{ListenError, uninitialized, refused}
use raptor_lite.Sockets.{
  Os, Trace, Outcome, Check, Fault, posix, succeed, if_zero, open_socket, close_fd, poll_add,
  poll_remove, get_function, fn_accept_ex, fn_accept_addresses, accept_ex, Mode, call,
}
use raptor_lite.WinSockets.{tcp_prepare_socket, tcp_server_prepare_socket, create_socket}
use raptor_lite.WinConnector.{process_property}

-- `AcceptObject`, where a negative socket is INVALID_SOCKET. The addresses that the system writes to its
-- buffer are those of `ParsingNewConnectionAddress`, an argument of the event.
pub record AcceptObject : Type 0 where
  pub new_socket : ℤ
  pub listen_port : ℕ
  pub mode : Mode
  pub handle_id : ℕ

abbrev pub invalid_socket : ℤ
invalid_socket = negsuc 0

-- `ListenInforEx`, by the address of its head.
pub record ListenInfo : Type 0 where
  pub head : ℕ
  pub listen_fd : ℕ

abbrev pub Objects : Type 0
Objects = ℕ → Option AcceptObject

abbrev pub store : Objects → ℕ → Option AcceptObject → Objects
store os id v = λ j. if j == id then v else os j

pub record WinListener : Type 0 where
  pub heads : List ListenInfo
  pub links : Store
  pub objects : Objects
  pub is_shut : Bool
  pub has_accept_ex : Bool
  pub has_addresses : Bool
  pub threads : ℕ

-- `TcpListener::TcpListener`, on a store of links.
abbrev pub new_listener : Store → WinListener
new_listener links = record {
  heads = [];
  links = links;
  objects = λ id. none;
  is_shut = true;
  has_accept_ex = false;
  has_addresses = false;
  threads = 1;
}

-- `Init` and `Start`: the second part says whether there is no error.
unfoldable pub init_listener : (polls : Bool) (threads : ℕ) → WinListener → WinListener × Bool
init_listener polls threads s =
    if s.is_shut
    then (if polls then (record s { is_shut = false; threads = threads }, true) else (s, false))
    else (s, false)

unfoldable pub start_listener : (polls : Bool) → WinListener → Bool
start_listener polls s = if s.is_shut then false else polls

-- A copy of the two fields of an entry.
abbrev pub copy_entry : Store → ℕ → ℕ → Store
copy_entry s from to = set_prev (set_next s to (s.next from)) to (s.prev from)

-- The elements of the vector are copied to their new addresses, the `k`-th first.
unfoldable pub move_heads :
    (addresses : ℕ → ℕ) → ℕ → List ListenInfo → Store → List ListenInfo × Store
move_heads addresses k [] s = ([], s)
move_heads addresses k (i ∷ is) s =
    let r = move_heads addresses (suc k) is (copy_entry s i.head (addresses k)) in
    (record i { head = addresses k } ∷ r.0, r.1)

-- `AcceptBaseHandleId`
abbrev pub accept_base_handle_id : ℕ
accept_base_handle_id = 9527

-- What becomes of a run: `faulted` is a deletion of what is no accept object.
pub data Run : Type 0 where
  returned : WinListener → Trace → Run
  faulted out_of_fuel : Run

-- The value of a `SOCKET`.
abbrev pub socket_value : ℤ → ℕ
socket_value (pos fd) = fd
socket_value (negsuc n) = closed_fd

module _ (os : Os) where
  -- The destructor of an accept object.
  unfoldable pub close_socket : ℤ → Trace → Trace
  close_socket (pos fd) t = (call os (close_fd fd) t).1
  close_socket (negsuc n) t = t

  -- The label `failure` of `StartAcceptEx` with a socket: the socket of the object, the error, the calls.
  abbrev pub accept_failure : ℕ → Fault → Trace → (ℤ × Option Fault) × Trace
  accept_failure fd e t = ((invalid_socket, some e), (call os (close_fd fd) t).1)

  unfoldable pub after_accept_ex :
      (pending : Trace → Bool) (listen_fd fd : ℕ) → ℤ × Trace → (ℤ × Option Fault) × Trace
  after_accept_ex pending listen_fd fd (pos n, t) = ((pos fd, none), t)
  after_accept_ex pending listen_fd fd (negsuc n, t) =
      if pending t
      then ((pos fd, none), t)
      else accept_failure fd (posix (accept_ex listen_fd fd)) t

  unfoldable pub accept_prepared :
      (pending : Trace → Bool) (listen_fd fd : ℕ) → Outcome → (ℤ × Option Fault) × Trace
  unfolding after_accept_ex
  accept_prepared pending listen_fd fd (none, t) =
      after_accept_ex pending listen_fd fd (call os (accept_ex listen_fd fd) t)
  accept_prepared pending listen_fd fd (some e, t) = accept_failure fd e t

  unfoldable pub accept_opened :
      (pending : Trace → Bool) (listen_fd family : ℕ) → ℤ × Trace → (ℤ × Option Fault) × Trace
  unfolding accept_prepared
  accept_opened pending listen_fd family (pos fd, t) =
      accept_prepared pending listen_fd fd (tcp_prepare_socket os fd (pos 0) t)
  accept_opened pending listen_fd family (negsuc n, t) =
      ((invalid_socket, some (posix (open_socket family))), t)

  -- `StartAcceptEx`: the socket that it leaves in the object, and the error. `pending` says whether the
  -- last error is ERROR_IO_PENDING.
  unfoldable pub start_accept_ex :
      (pending : Trace → Bool) (listen_fd : ℕ)
      → ResolvedAddress
      → Trace
      → (ℤ × Option Fault) × Trace
  unfolding accept_opened
  start_accept_ex pending listen_fd addr t =
      let family = sockaddr_get_family addr in
      accept_opened pending listen_fd family (call os (open_socket family) t)

  -- `GetExtensionFunction`: which functions there are afterwards, and the error.
  find_addresses : ℕ → Bool → Trace → Bool × Outcome
  find_addresses fd true t = (true, (none, t))
  find_addresses fd false t =
      let o =
        if_zero (posix (get_function fd fn_accept_addresses)) succeed
          (call os (get_function fd fn_accept_addresses) t) in
      (no_error o.0, o)
    where
      no_error : Option Fault → Bool
      no_error none = true
      no_error (some e) = false

  with_accept_ex : ℕ → Bool → Outcome → (Bool × Bool) × Outcome
  unfolding find_addresses
  with_accept_ex fd addresses (none, t) =
      let r = find_addresses fd addresses t in ((true, r.0), r.1)
  with_accept_ex fd addresses (some e, t) = ((false, addresses), (some e, t))

  unfoldable pub get_extension_function :
      (fd : ℕ) (has_accept_ex has_addresses : Bool) → Trace → (Bool × Bool) × Outcome
  unfolding with_accept_ex
  get_extension_function fd true addresses t = with_accept_ex fd addresses (none, t)
  get_extension_function fd false addresses t = with_accept_ex fd addresses (
      if_zero (posix (get_function fd fn_accept_ex)) succeed
        (call os (get_function fd fn_accept_ex) t))

  -- The end of a round of the loop of `AddListeningPort`: on an error the object is taken out and deleted.
  unfoldable pub accept_posted :
      (node : ℕ)
      → AcceptObject
      → WinListener
      → (ℤ × Option Fault) × Trace
      → (WinListener × Option Fault) × Trace
  unfolding close_socket
  accept_posted node o s ((socket, none), t) = (
    (record s { objects = store s.objects node (some (record o { new_socket = socket })) }, none),
    t,
  )
  accept_posted node o s ((socket, some e), t) = (
    (
      record s { links = (list_remove_entry s.links node).1; objects = store s.objects node none },
      some e,
    ),
    close_socket socket t,
  )

  -- A new object at the back of a ring, with an accept.
  unfoldable pub post_accept :
      (pending : Trace → Bool) (node head listen_fd : ℕ)
      → AcceptObject
      → ResolvedAddress
      → WinListener
      → Trace
      → (WinListener × Option Fault) × Trace
  unfolding accept_posted
  post_accept pending node head listen_fd o addr s t =
      accept_posted node o (record s { links = list_push_back s.links head node })
        (start_accept_ex pending listen_fd addr t)

  abbrev pub unless_failed :
      (WinListener → Trace → (WinListener × Option Fault) × Trace)
      → (WinListener × Option Fault) × Trace
      → (WinListener × Option Fault) × Trace
  unless_failed f ((s, none), t) = f s t
  unless_failed f ((s, some e), t) = ((s, some e), t)

  -- The loop over the threads and one more; `nodes` are the addresses of the new objects.
  unfoldable pub post_accepts :
      (pending : Trace → Bool) (nodes : List ℕ) (head listen_fd : ℕ)
      → AcceptObject
      → ResolvedAddress
      → WinListener
      → Trace
      → (WinListener × Option Fault) × Trace
  post_accepts pending [] head listen_fd o addr s t = ((s, none), t)
  post_accepts pending (node ∷ nodes) head listen_fd o addr s t =
      unless_failed (post_accepts pending nodes head listen_fd o addr)
        (post_accept pending node head listen_fd o addr s t)
