-- ===== src/WinListener/Running.antt =====
-- `AddListeningPort`, `Shutdown` and the completions of accepts of src/windows/tcp_listener.cc.
use raptor_lite.Common.{
  ℕ, zero, suc, ◌+◌, Bool, true, Option, none, some, List, [], ◌∷◌, ◌++◌, if◌then◌else◌, length,
}
use raptor_lite.Common.Int.{ℤ, pos, negsuc}
use raptor_lite.Words.{u32}
use raptor_lite.Address.{ResolvedAddress, sockaddr_get_port}
use raptor_lite.Endpoint.{Endpoint, new_endpoint, set_listen_port}
use raptor_lite.ListEntry.{Store, list_init, list_pop_back}
use raptor_lite.Property.{Property}
use raptor_lite.Listener.{ListenError, uninitialized, refused}
use raptor_lite.Sockets.{
  Os, Trace, Outcome, Fault, posix, open_socket, close_fd, poll_add, poll_remove, Mode, call,
}
use raptor_lite.WinSockets.{tcp_server_prepare_socket, create_socket}
use raptor_lite.WinConnector.{process_property}
use raptor_lite.WinListener.{
  AcceptObject, invalid_socket, ListenInfo, Objects, store, WinListener, copy_entry, move_heads,
  accept_base_handle_id, Run, returned, faulted, out_of_fuel, socket_value, close_socket,
  start_accept_ex, get_extension_function, post_accepts,
}

-- The addresses of the new objects.
abbrev pub new_addresses : (ℕ → ℕ) → ℕ → ℕ → List ℕ
new_addresses nodes k zero = []
new_addresses nodes k (suc n) = nodes k ∷ new_addresses nodes (suc k) n

-- The new element of the vector, with an empty ring; the others are copied.
unfoldable pub add_head : (addresses : ℕ → ℕ) → ℕ → WinListener → WinListener
unfolding move_heads
add_head addresses fd s =
    let r = move_heads addresses 0 s.heads s.links in
    let head = addresses (length s.heads) in
    record s {
      heads = r.0 ++ record { head = head; listen_fd = fd } ∷ [];
      links = list_init r.1 head;
    }

abbrev pub new_object : (port index : ℕ) → Mode → AcceptObject
new_object port index mode = record {
  new_socket = invalid_socket;
  listen_port = port;
  mode = mode;
  handle_id = u32 (accept_base_handle_id + index);
}

abbrev pub as_error : Option Fault → Option ListenError
as_error none = none
as_error (some e) = some (refused e)

-- What the system and the allocator choose.
pub record Choices : Type 0 where
  pub pending : Trace → Bool
  pub addresses : ℕ → ℕ
  pub nodes : ℕ → ℕ

-- `ProcessProperty`, which is the same text as in src/windows/tcp_connector.cc.
abbrev pub process_accepted : Os → ℕ → Property → Trace → Trace
process_accepted os fd p t = process_property os fd p t

module _ (os : Os) (ntohs htons : ℕ → ℕ) where
  -- Behind `raptor_tcp_server_prepare_socket`.
  unfoldable pub listening :
      Choices
      → (fd : ℕ) → Mode
      → ResolvedAddress
      → WinListener
      → Outcome
      → (WinListener × Option ListenError) × Trace
  unfolding add_head
  listening k fd mode mapped s (some e, t) = ((s, some (refused e)), t)
  listening k fd mode mapped s (none, t) =
      let port = sockaddr_get_port ntohs (os.bound_to t fd) in
      let r =
        post_accepts os k.pending (new_addresses k.nodes 0 (suc s.threads))
          (k.addresses (length s.heads)) fd (new_object port (length s.heads) mode) mapped
          (add_head k.addresses fd s) (call os (poll_add fd) t).1 in
      ((r.0.0, as_error r.0.1), r.1)

  -- Behind the lookup of the functions: on an error the socket is closed.
  unfoldable pub with_functions :
      Choices
      → (fd : ℕ) → Mode
      → ResolvedAddress
      → WinListener
      → (Bool × Bool) × Outcome
      → (WinListener × Option ListenError) × Trace
  unfolding listening
  with_functions k fd mode mapped s (has, (some e, t)) = (
    (record s { has_accept_ex = has.0; has_addresses = has.1 }, some (refused e)),
    (call os (close_fd fd) t).1,
  )
  with_functions k fd mode mapped s (has, (none, t)) =
      listening k fd mode mapped (record s { has_accept_ex = has.0; has_addresses = has.1 })
        (tcp_server_prepare_socket os fd mapped t)

  -- A socket without an error is not INVALID_SOCKET.
  unfoldable pub listen_with :
      Choices
      → ResolvedAddress
      → WinListener
      → Option Fault × Mode × ℤ
      → Trace
      → (WinListener × Option ListenError) × Trace
  unfolding with_functions
  listen_with k mapped s (some e, mode, fd) t = ((s, some (refused e)), t)
  listen_with k mapped s (none, mode, pos fd) t =
      with_functions k fd mode mapped s
        (get_extension_function os fd s.has_accept_ex s.has_addresses t)
  listen_with k mapped s (none, mode, negsuc n) t = ((s, some (refused (posix (open_socket 0)))), t)

  -- `AddListeningPort`
  unfoldable pub add_listening_port :
      Choices → ResolvedAddress → WinListener → Trace → (WinListener × Option ListenError) × Trace
  unfolding listen_with
  add_listening_port k addr s t =
      let r = create_socket ntohs htons os addr t in
      if s.is_shut
      then ((s, some uninitialized), t)
      else listen_with k r.0.0 s (r.0.1.status, r.0.1.mode, r.0.1.new_fd) r.1

-- The run of a loop that deletes the objects of one ring: the links and objects that are left.
pub data Drained : Type 0 where
  emptied : Store → Objects → Trace → Drained
  bad_delete stuck : Drained

module _ (os : Os) where
  abbrev pub delete_popped :
      (Store → Objects → Trace → Drained)
      → ℕ
      → Option AcceptObject
      → Store
      → Objects
      → Trace
      → Drained
  delete_popped f node none s objects t = bad_delete
  delete_popped f node (some o) s objects t =
      f s (store objects node none) (close_socket os o.new_socket t)

  abbrev pub popped :
      (Store → Objects → Trace → Drained) → Option ℕ × Store → Objects → Trace → Drained
  popped f (none, s) objects t = emptied s objects t
  popped f (some node, s) objects t = delete_popped f node (objects node) s objects t

  -- `do … while (entry)` over `raptor_list_pop_back`.
  unfoldable pub drain : (fuel : ℕ) → (head : ℕ) → Store → Objects → Trace → Drained
  drain zero head s objects t = stuck
  drain (suc fuel) head s objects t = popped (drain fuel head) (list_pop_back s head) objects t

  abbrev pub when_emptied : (Store → Objects → Trace → Drained) → Drained → Drained
  when_emptied f (emptied s objects t) = f s objects t
  when_emptied f bad_delete = bad_delete
  when_emptied f stuck = stuck

  -- The loop of `Shutdown` over the vector: `info` is a copy of the element.
  unfoldable pub drain_heads :
      (fuel local : ℕ) → List ListenInfo → Store → Objects → Trace → Drained
  unfolding drain
  drain_heads fuel local [] s objects t = emptied s objects t
  drain_heads fuel local (i ∷ is) s objects t =
      when_emptied
        (λ s' objects' t'.
          drain_heads fuel local is s' objects'
            (call os (close_fd i.listen_fd) (call os (poll_remove i.listen_fd) t').1).1)
        (drain fuel local (copy_entry s i.head local) objects t)

  abbrev pub shut_run : WinListener → Drained → Run
  shut_run s (emptied links objects t) =
      returned (record s { is_shut = true; heads = []; links = links; objects = objects }) t
  shut_run s bad_delete = faulted
  shut_run s stuck = out_of_fuel

  -- `Shutdown`
  unfoldable pub shutdown_listener : (fuel local : ℕ) → WinListener → Trace → Run
  unfolding drain_heads
  shutdown_listener fuel local s t =
      if s.is_shut
      then returned s t
      else shut_run s (drain_heads fuel local s.heads s.links s.objects t)

  -- The end of `OnEventProcess`: a listener whose next accept fails is shut down.
  unfoldable pub accept_again :
      (fuel local node : ℕ) → AcceptObject → WinListener → (ℤ × Option Fault) × Trace → Run
  unfolding shutdown_listener
  accept_again fuel local node o s ((socket, none), t) =
      returned
        (record s { objects = store s.objects node (some (record o { new_socket = socket })) }) t
  accept_again fuel local node o s ((socket, some e), t) =
      shutdown_listener fuel local
        (record s { objects = store s.objects node (some (record o { new_socket = socket })) }) t

  -- `OnEventProcess` for the object at `node` of the socket `listen_fd`: the endpoint that `OnAccept` is
  -- given, and the run. `server` is the address that the system gives, and `p` what the handler leaves of
  -- the properties; a completion of what is no object is a fault.
  unfoldable pub accepted_object :
      (fuel local node listen_fd : ℕ) (pending : Trace → Bool)
      → ResolvedAddress
      → Property
      → WinListener
      → Trace
      → Option AcceptObject
      → Option Endpoint × Run
  unfolding accept_again
  accepted_object fuel local node listen_fd pending server p s t none = (none, faulted)
  accepted_object fuel local node listen_fd pending server p s t (some o) =
      let fd = socket_value o.new_socket in
      (
        some (set_listen_port (new_endpoint fd) o.listen_port),
        accept_again fuel local node o s
            (start_accept_ex os pending listen_fd server (process_accepted os fd p t)),
      )

  unfoldable pub on_accept_event :
      (fuel local node listen_fd : ℕ) (pending : Trace → Bool)
      → ResolvedAddress
      → Property
      → WinListener
      → Trace
      → Option Endpoint × Run
  unfolding accepted_object
  on_accept_event fuel local node listen_fd pending server p s t =
      accepted_object fuel local node listen_fd pending server p s t (s.objects node)
