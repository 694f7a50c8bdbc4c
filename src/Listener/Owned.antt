-- ===== src/Listener/Owned.antt =====
-- Every descriptor that a listener opens is in a node, with the application, or closed.
use raptor_lite.Common.{
  one, times, one_self, ℕ, zero, suc, ◌+◌, ◌≡◌, ◌≢◌, refl, ap, ◌∙◌, Bool, true, false, Option, none,
  some, List, [], ◌∷◌, ◌++◌, ==_self, if◌then◌else◌, inl, inr, Bool-cases, arith,
}
use raptor_lite.Common.Int.{ℤ, pos, negsuc}
use raptor_lite.Address.{ResolvedAddress}
use raptor_lite.Endpoint.{Endpoint, new_endpoint, set_listen_port}
use raptor_lite.Property.{Property}
use raptor_lite.Connector.Owned.{process_property-keeps}
use raptor_lite.Sockets.{
  Os, Trace, Fault, open_socket, accept_on, close_fd, call, Mode, Outcome, create_dualstack_socket,
  tcp_server_prepare_socket,
}
use raptor_lite.Sockets.Counted.{times-without}
use raptor_lite.Sockets.Opened.{
  without, opened, ClosedOnError, server_prepare-ClosedOnError, Opens,
  create_dualstack_socket-Opens,
}
use raptor_lite.Listener.{
  Node, Listener, ListenError, node_of, listening, listen_with, add_listening_port, close_nodes,
  shutdown_listener, accepted, on_accept_event,
}

if_either : {A : Type 0} (P : A → Type 0) (b : Bool) (x y : A) → P x → P y → P (if b then x else y)
if_either P true x y h k = h
if_either P false x y h k = k

abbrev pub listen_fds : List Node → List ℕ
listen_fds [] = []
listen_fds (n ∷ ns) = n.listen_fd ∷ listen_fds ns

times-append :
    (k : ℕ) (ns : List Node) (n : Node)
    → times k (listen_fds (ns ++ n ∷ [])) ≡ times k (listen_fds ns) + one k n.listen_fd
times-append k [] n = omega arith
times-append k (m ∷ ns) n = omega (arith, times-append k ns n)

-- A listener with what has been called and the descriptors that others have, the endpoints that were
-- accepted among them.
pub record Door : Type 0 where
  pub listener : Listener
  pub trace : Trace
  pub handed : List ℕ

abbrev pub door : Listener → Trace → List ℕ → Door
door listener trace handed = record { listener = listener; trace = trace; handed = handed }

-- Every open descriptor is in a node, or with others, and just once.
abbrev pub Held : Door → Type 0
Held d =
    (n : ℕ) → times n (opened d.trace) ≡ times n (listen_fds d.listener.nodes) + times n d.handed

pub data Use : Type 0 where
  listens : (id : ℕ) → ResolvedAddress → Use
  accepts : (id : ℕ) (is_error online : Bool) → Property → Use
  shuts : Use

abbrev pub with_endpoint : Option Endpoint → List ℕ → List ℕ
with_endpoint none handed = handed
with_endpoint (some ep) handed = ep.fd ∷ handed

module _ (os : Os) (ntohs : ℕ → ℕ) where
  abbrev pub accept_at : (is_error online : Bool) → Property → Door → Option Node → Door
  accept_at is_error online p d none = d
  accept_at is_error online p d (some n) =
      let r = on_accept_event os ntohs is_error online p n d.trace in
      door d.listener r.1 (with_endpoint r.0 d.handed)

  unfoldable pub use_door : Door → Use → Door
  use_door d (listens id addr) =
      let r = add_listening_port os ntohs id addr d.listener d.trace in door r.0.0 r.1 d.handed
  use_door d (accepts id is_error online p) =
      accept_at is_error online p d (node_of id d.listener.nodes)
  use_door d shuts = let r = shutdown_listener os ntohs d.listener d.trace in door r.0 r.1 d.handed

  unfoldable pub uses : List Use → Door → Door
  uses [] d = d
  uses (u ∷ us) d = uses us (use_door d u)

  close_nodes-times :
      (ns : List Node) (t : Trace) (others : List ℕ)
      → ((n : ℕ) → times n (opened t) ≡ times n (listen_fds ns) + times n others)
      → (n : ℕ) → times n (opened (close_nodes os ntohs ns t)) ≡ times n others
  unfolding close_nodes call
  close_nodes-times [] t others h = λ n. omega (arith, h n)
  close_nodes-times (m ∷ ns) t others h =
      close_nodes-times ns (call os (close_fd m.listen_fd) t).1 others (λ n.
        let self : one m.listen_fd m.listen_fd ≡ 1 = one_self m.listen_fd in
        omega
          (arith, h n, times-without n m.listen_fd (opened t) (omega (arith, h m.listen_fd, self))))

  shuts-Held : (d : Door) → Held d → Held (use_door d shuts)
  unfolding use_door shutdown_listener
  shuts-Held d h = elim (Bool-cases d.listener.is_shut) [
    | inl e ↦ rw e h
    | inr ne ↦ rw ne (λ n. omega (arith, close_nodes-times d.listener.nodes d.trace d.handed h n))
  ]

  module _ (never_zero : (t : Trace) (f : ℕ) → os.answer t (open_socket f) ≢ pos 0)
      (never_accepts_zero : (t : Trace) (fd : ℕ) → os.answer t (accept_on fd) ≢ pos 0) where
    accepted-Held :
        (online : Bool) (p : Property) (m : Node) (d : Door) (a : ℤ)
        → a ≢ pos 0
        → Held d
        → let r = accepted os ntohs online p m (a, (accept_on m.listen_fd, a) ∷ d.trace) in
          Held (door d.listener r.1 (with_endpoint r.0 d.handed))
    unfolding accepted new_endpoint set_listen_port
    accepted-Held online p m d (negsuc k) nz h = h
    accepted-Held online p m d (pos zero) nz h = absurd (nz refl)
    accepted-Held true p m d (pos (suc fd)) nz h =
        λ n. ap (times n) (process_property-keeps os (suc fd) p _) ∙ omega (arith, h n)
    accepted-Held false p m d (pos (suc fd)) nz h = λ n. omega (arith, h n)

    accept_at-Held :
        (is_error online : Bool) (p : Property) (d : Door) (o : Option Node)
        → Held d
        → Held (accept_at is_error online p d o)
    unfolding on_accept_event call
    accept_at-Held is_error online p d none h = h
    accept_at-Held true online p d (some m) h = h
    accept_at-Held false online p d (some m) h =
        accepted-Held online p m d (os.answer d.trace (accept_on m.listen_fd))
          (never_accepts_zero d.trace m.listen_fd) h

    listening-Held :
        (id fd : ℕ) (mode : Mode) (addr : ResolvedAddress) (d : Door) (ys : List ℕ) (o : Outcome)
        → ys ≡ fd ∷ opened d.trace
        → ClosedOnError os fd ys o
        → Held d
        → let r = listening os ntohs id fd mode addr d.listener o in Held (door r.0.0 r.1 d.handed)
    unfolding listening call
    listening-Held id fd mode addr d ys (some e, t) f c h =
        λ n. ap (times n) (c ∙ ap (without fd) f ∙ closed) ∙ h n
      where
        closed : without fd (fd ∷ opened d.trace) ≡ opened d.trace
        closed = rw (==_self fd) refl
    listening-Held id fd mode addr d ys (none, t) f c h =
        λ n. ap (times n) (c ∙ f) ∙ omega (arith, h n, times-append n d.listener.nodes _)

    listen_with-Held :
        (id : ℕ) (addr : ResolvedAddress) (d : Door) (status : Option Fault) (mode : Mode) (a : ℤ)
        (t : Trace)
        → Opens os status a (opened d.trace) (opened t)
        → Held d
        → let q = listen_with os ntohs id addr d.listener (status, mode, a) t in
          Held (door q.0.0 q.1 d.handed)
    unfolding listen_with
    listen_with-Held id addr d (some e) mode a t o h = λ n. ap (times n) o ∙ h n
    listen_with-Held id addr d none mode (pos fd) t (m, f, o) h =
        let same : m ≡ fd = cc in
        listening-Held id fd mode addr d (opened t) (tcp_server_prepare_socket os fd addr true t)
          (o ∙ ap (λ (x : ℕ). x ∷ opened d.trace) same)
          (server_prepare-ClosedOnError os fd addr true t) h
    listen_with-Held id addr d none mode (negsuc k) t (m, f, o) h = cc

    listens-Held :
        (d : Door) (id : ℕ) (addr : ResolvedAddress) → Held d → Held (use_door d (listens id addr))
    unfolding use_door add_listening_port
    listens-Held d id addr h =
        let r = create_dualstack_socket os addr d.trace in
        if_either (λ (q : (Listener × Option ListenError) × Trace). Held (door q.0.0 q.1 d.handed))
          d.listener.is_shut _ _ h
          (listen_with-Held id addr d r.0.status r.0.mode r.0.new_fd r.1
            (create_dualstack_socket-Opens os never_zero addr d.trace) h)

    use_door-Held : (d : Door) (u : Use) → Held d → Held (use_door d u)
    unfolding use_door
    use_door-Held d (listens id addr) h = listens-Held d id addr h
    use_door-Held d (accepts id is_error online p) h =
        accept_at-Held is_error online p d (node_of id d.listener.nodes) h
    use_door-Held d shuts h = shuts-Held d h

    -- If the system never gives descriptor 0 to a new socket: whatever is asked of a listener, in any
    -- order and whichever calls fail, the descriptors that are open are those of its nodes and those that
    -- others had or were handed with `OnAccept`, each as often as it is open; and none of its own are
    -- left open by a `Shutdown` of a listener that runs.
    pub uses-Held :
        (us : List Use) (d : Door)
        → Held d
        → Held (uses us d)
          × ((uses us d).listener.is_shut ≡ false
              → (n : ℕ)
              → times n (opened (use_door (uses us d) shuts).trace) ≡ times n (uses us d).handed)
    unfolding uses use_door shutdown_listener
    uses-Held [] d h = (h, λ e. rw e (λ n. close_nodes-times d.listener.nodes d.trace d.handed h n))
    uses-Held (u ∷ us) d h = uses-Held us (use_door d u) (use_door-Held d u h)
