-- ===== src/WinListener/FirstPort.antt =====
-- `AddListeningPort` of a Windows listener that listens on no port yet.
use raptor_lite.Common.{
  ℕ, zero, suc, ◌+◌, ◌≤◌, ◌<◌, ◌≡◌, ◌≢◌, ◌⊎◌, inl, inr, refl, ap, ◌∙◌, Bool, true, false, Option,
  none, some, List, [], ◌∷◌, if◌then◌else◌, length, one, times, one_self, arith,
}
use raptor_lite.Common.Int.{ℤ, pos, negsuc}
use raptor_lite.Address.{ResolvedAddress, sockaddr_get_port}
use raptor_lite.ListEntry.Ring.{IsRing, init-IsRing}
use raptor_lite.Listener.{ListenError}
use raptor_lite.Sockets.{
  Os, Trace, Outcome, Fault, posix, Mode, succeed, if_zero, get_function, fn_accept_ex,
  fn_accept_addresses, poll_add, call,
}
use raptor_lite.Sockets.Opened.{without, opened, succeed-Quiet, if_zero-Quiet, ClosedOnError}
use raptor_lite.WinSockets.{
  create_dualstack_socket, create_socket, socket_address, tcp_server_prepare_socket,
}
use raptor_lite.WinSockets.Opened.{
  without_head, Makes, create_dualstack_socket-Opens, server_prepare-ClosedOnError,
}
use raptor_lite.WinListener.{
  WinListener, move_heads, faulted, find_addresses, with_accept_ex, get_extension_function,
}
use raptor_lite.WinListener.Running.{
  Choices, new_addresses, new_object, add_head, as_error, listening, with_functions, listen_with,
  add_listening_port, shutdown_listener,
}
use raptor_lite.WinListener.Accepting.{HaveSockets, post_accepts-Posted}
use raptor_lite.WinListener.Stopping.{shutdown_listener-faulted}

-- The listener listens on the socket `listen_fd`, with a ring of accept objects, each with its socket.
pub record Listens (k : Choices) (s : WinListener) (xs : List ℕ)
    (r : (WinListener × Option ListenError) × Trace) : Type 0 where
  pub listen_fd : ℕ
  pub nodes : List ℕ
  pub sockets : List ℕ
  pub only_head : r.0.0.heads ≡ record { head = k.addresses 0; listen_fd = listen_fd } ∷ []
  pub ring : IsRing r.0.0.links (k.addresses 0) nodes
  pub have : HaveSockets r.0.0.objects nodes sockets
  pub open_ones : (n : ℕ) → times n (opened r.1) ≡ times n sockets + one n listen_fd + times n xs
  pub all_of_them : r.0.1 ≡ none → length nodes ≡ suc s.threads
  pub head_apart : s.objects (k.addresses 0) ≡ none → r.0.0.objects (k.addresses 0) ≡ none
  pub same_state : r.0.0.is_shut ≡ s.is_shut

-- Nothing is left of the attempt.
pub record Fails (s : WinListener) (xs : List ℕ) (r : (WinListener × Option ListenError) × Trace)
    : Type 0 where
  pub is_error : r.0.1 ≢ none
  pub no_head : r.0.0.heads ≡ []
  pub none_open : opened r.1 ≡ xs

abbrev pub FirstPort :
    Choices → WinListener → List ℕ → (WinListener × Option ListenError) × Trace → Type 0
FirstPort k s xs r = Fails s xs r ⊎ Listens k s xs r

-- The addresses of the new objects and of the head are no two the same.
abbrev pub Distinct : Choices → ℕ → Type 0
Distinct k threads =
    (n : ℕ) → one n (k.addresses 0) + times n (new_addresses k.nodes 0 (suc threads)) ≤ 1

length-new_addresses : (nodes : ℕ → ℕ) (k n : ℕ) → length (new_addresses nodes k n) ≡ n
length-new_addresses nodes k zero = refl
length-new_addresses nodes k (suc n) = ap suc (length-new_addresses nodes (suc k) n)

no_error : (o : Option Fault) → as_error o ≡ none → o ≡ none
no_error none e = refl
no_error (some f) e = cc

module _ (os : Os) where
  find_addresses-keeps :
      (fd : ℕ) (has : Bool) (t : Trace) → opened (find_addresses os fd has t).1.1 ≡ opened t
  unfolding find_addresses
  find_addresses-keeps fd true t = refl
  find_addresses-keeps fd false t =
      (if_zero-Quiet os (get_function fd fn_accept_addresses)
          (posix (get_function fd fn_accept_addresses)) succeed (λ a xs. refl) succeed-Quiet).keeps
        t

  with_accept_ex-keeps :
      (fd : ℕ) (has : Bool) (o : Outcome) → opened (with_accept_ex os fd has o).1.1 ≡ opened o.1
  unfolding with_accept_ex
  with_accept_ex-keeps fd has (none, t) = find_addresses-keeps fd has t
  with_accept_ex-keeps fd has (some e, t) = refl

  get_extension_function-keeps :
      (fd : ℕ) (a b : Bool) (t : Trace) → opened (get_extension_function os fd a b t).1.1 ≡ opened t
  unfolding get_extension_function
  get_extension_function-keeps fd true b t = with_accept_ex-keeps fd b (none, t)
  get_extension_function-keeps fd false b t =
      with_accept_ex-keeps fd b (
        if_zero (posix (get_function fd fn_accept_ex)) succeed
          (call os (get_function fd fn_accept_ex) t))
      ∙ (if_zero-Quiet os (get_function fd fn_accept_ex) (posix (get_function fd fn_accept_ex))
            succeed (λ a xs. refl) succeed-Quiet).keeps
          t

module _ (os : Os) (ntohs htons : ℕ → ℕ) (k : Choices) where
  listening-Listens :
      (fd : ℕ) (mode : Mode) (mapped : ResolvedAddress) (s : WinListener) (xs ys : List ℕ)
      (t : Trace)
      → Distinct k s.threads
      → ys ≡ fd ∷ xs
      → opened t ≡ ys
      → Listens k s xs
          (listening os ntohs htons k fd mode mapped (record s { heads = [] }) (none, t))
  unfolding listening add_head move_heads call
  listening-Listens fd mode mapped s xs ys t d f c =
      let s' = add_head k.addresses fd (record s { heads = [] }) in
      let nodes = new_addresses k.nodes 0 (suc s.threads) in
      let p =
        post_accepts-Posted os k.pending (k.addresses 0) fd
          (new_object (sockaddr_get_port ntohs (os.bound_to t fd)) 0 mode) mapped [] nodes s'
          (call os (poll_add fd) t).1 (λ n. omega (arith, d n))
          (init-IsRing s.links (k.addresses 0)) in
      record {
        listen_fd = fd;
        nodes = p.added;
        sockets = p.sockets;
        only_head = p.same_heads;
        ring = p.ring;
        have = p.have;
        open_ones = λ n. p.open_ones n ∙ omega (arith, ap (times n) (c ∙ f));
        all_of_them = λ e.
            ap (λ (as' : List ℕ). length as') (p.all_of_them (no_error _ e))
            ∙ length-new_addresses k.nodes 0 (suc s.threads);
        head_apart = λ e.
            p.others (k.addresses 0) (omega (arith, d (k.addresses 0), one_self (k.addresses 0)))
            ∙ e;
        same_state = p.same_state;
      }

  listening-FirstPort :
      (fd : ℕ) (mode : Mode) (mapped : ResolvedAddress) (s : WinListener) (xs ys : List ℕ)
      (o : Outcome)
      → Distinct k s.threads
      → ys ≡ fd ∷ xs
      → ClosedOnError os fd ys o
      → FirstPort k s xs (listening os ntohs htons k fd mode mapped (record s { heads = [] }) o)
  unfolding listening
  listening-FirstPort fd mode mapped s xs ys (some e, t) d f c = inl (record {
    is_error = λ x. cc;
    no_head = refl;
    none_open = c ∙ ap (without fd) f ∙ without_head fd xs;
  })
  listening-FirstPort fd mode mapped s xs ys (none, t) d f c =
      inr (listening-Listens fd mode mapped s xs ys t d f c)

  with_functions-FirstPort :
      (fd : ℕ) (mode : Mode) (mapped : ResolvedAddress) (s : WinListener) (xs : List ℕ)
      (r : (Bool × Bool) × Outcome)
      → Distinct k s.threads
      → opened r.1.1 ≡ fd ∷ xs
      → FirstPort k s xs
          (with_functions os ntohs htons k fd mode mapped (record s { heads = [] }) r)
  unfolding with_functions call
  with_functions-FirstPort fd mode mapped s xs (has, (some e, t)) d f = inl (record {
    is_error = λ x. cc;
    no_head = refl;
    none_open = ap (without fd) f ∙ without_head fd xs;
  })
  with_functions-FirstPort fd mode mapped s xs (has, (none, t)) d f = as_before (
      listening-FirstPort fd mode mapped (record s { has_accept_ex = has.0; has_addresses = has.1 })
        xs (opened t) (tcp_server_prepare_socket os fd mapped t) d f
        (server_prepare-ClosedOnError os fd mapped t))
    where
      as_before :
          {r : (WinListener × Option ListenError) × Trace}
          → FirstPort k (record s { has_accept_ex = has.0; has_addresses = has.1 }) xs r
          → FirstPort k s xs r
      as_before (inl f) =
          inl (record { is_error = f.is_error; no_head = f.no_head; none_open = f.none_open })
      as_before (inr l) = inr (record {
        listen_fd = l.listen_fd;
        nodes = l.nodes;
        sockets = l.sockets;
        only_head = l.only_head;
        ring = l.ring;
        have = l.have;
        open_ones = l.open_ones;
        all_of_them = l.all_of_them;
        head_apart = l.head_apart;
        same_state = l.same_state;
      })

  listen_with-FirstPort :
      (mapped : ResolvedAddress) (s : WinListener) (xs : List ℕ) (status : Option Fault)
      (mode : Mode) (a : ℤ) (t : Trace)
      → Distinct k s.threads
      → Makes os status a xs (opened t)
      → FirstPort k s xs
          (listen_with os ntohs htons k mapped (record s { heads = [] }) (status, mode, a) t)
  unfolding listen_with
  listen_with-FirstPort mapped s xs (some e) mode a t d (n, neg, f) =
      inl (record { is_error = λ x. cc; no_head = refl; none_open = f })
  listen_with-FirstPort mapped s xs none mode (pos fd) t d (n, same, f) =
      let eq : n ≡ fd = cc in
      with_functions-FirstPort fd mode mapped s xs
        (get_extension_function os fd s.has_accept_ex s.has_addresses t) d
        (get_extension_function-keeps os fd s.has_accept_ex s.has_addresses t
          ∙ f
          ∙ ap (λ (x : ℕ). x ∷ xs) eq)
  listen_with-FirstPort mapped s xs none mode (negsuc m) t d (n, same, f) = cc

  -- For a running Windows listener without a port, if the new objects and the head of their ring are at
  -- addresses that are no two the same: `AddListeningPort` either fails, at whichever call, and leaves no
  -- port and no socket open; or it leaves one port, with a ring of accept objects that have a socket each,
  -- one more of them than threads if there is no error, and what is open are these sockets and the
  -- listening one, each just once.
  pub add_listening_port-FirstPort :
      (addr : ResolvedAddress) (s : WinListener) (t : Trace)
      → s.is_shut ≡ false
      → Distinct k s.threads
      → FirstPort k s
          (opened t)
          (add_listening_port os ntohs htons k addr (record s { heads = [] }) t)
  unfolding add_listening_port create_socket
  add_listening_port-FirstPort addr s t runs d =
      let mapped = socket_address ntohs htons addr in
      let r = create_dualstack_socket os mapped t in
      by_state _ _ s.is_shut runs (
        listen_with-FirstPort mapped s (opened t) r.0.status r.0.mode r.0.new_fd r.1 d
          (create_dualstack_socket-Opens os mapped t))
    where
      by_state :
          (x y : (WinListener × Option ListenError) × Trace) (b : Bool)
          → b ≡ false
          → FirstPort k s (opened t) y
          → FirstPort k s (opened t) (if b then x else y)
      by_state x y true e h = let clash : true ≡ false = e in cc clash
      by_state x y false e h = h

  -- A Windows listener cannot be shut down behind its first port: if `AddListeningPort` left the port, with
  -- an error of one of its accepts or without one, then `Shutdown` deletes the head of the ring as if it
  -- were an accept object.
  pub add_listening_port-shutdown_listener :
      (addr : ResolvedAddress) (s : WinListener) (t : Trace)
      → s.is_shut ≡ false
      → Distinct k s.threads
      → s.objects (k.addresses 0) ≡ none
      → let r = add_listening_port os ntohs htons k addr (record s { heads = [] }) t in
        r.0.0.heads ≢ []
        → (fuel local : ℕ) (u : Trace)
        → (l : List ℕ) × ((times local (k.addresses 0 ∷ l) ≡ 0)
            → length l < fuel
            → shutdown_listener os fuel local r.0.0 u ≡ faulted)
  add_listening_port-shutdown_listener addr s t runs d free ne fuel local u =
      by_result (add_listening_port-FirstPort addr s t runs d)
    where
      by_result :
          let r = add_listening_port os ntohs htons k addr (record s { heads = [] }) t in
          FirstPort k s (opened t) r
          → (l : List ℕ) × ((times local (k.addresses 0 ∷ l) ≡ 0)
              → length l < fuel
              → shutdown_listener os fuel local r.0.0 u ≡ faulted)
      by_result (inl f) = absurd (ne f.no_head)
      by_result (inr l) = (
        l.nodes,
        λ apart enough.
            shutdown_listener-faulted os fuel local _ _ [] l.nodes u (l.same_state ∙ runs)
              l.only_head l.ring apart (l.head_apart free) enough,
      )
