-- ===== src/WinConnector/Attempts.antt =====
-- The attempt to connect of a Windows connector: its socket is closed again, or in a new record.
use raptor_lite.Common.{
  ℕ, ◌≡◌, refl, ap, ◌∙◌, Bool, true, false, Option, none, some, List, [], ◌∷◌, ◌==◌, ==_self, times,
  apart_new, arith,
}
use raptor_lite.Common.Int.{ℤ, pos, negsuc}
use raptor_lite.Address.{ResolvedAddress, sockaddr_make_wildcard6}
use raptor_lite.Property.{Property, check_value, to_bool, to_int32}
use raptor_lite.Sockets.{
  Os, Trace, Outcome, Fault, posix, succeed, if_zero, snd_timeo, rcv_timeo, reuse_addr, tcp_nodelay,
  bind_to, get_function, fn_connect_ex, connect_ex, poll_add, call,
}
use raptor_lite.Sockets.Opened.{without, opened, Quiet, >>-Quiet, succeed-Quiet, if_zero-Quiet}
use raptor_lite.Connector.Owned.{when_false-keeps, when_positive-keeps, set_timeout-Quiet}
use raptor_lite.WinSockets.{
  set_socket_reuse_addr, set_socket_low_latency, set_socket_snd_timeout, set_socket_rcv_timeout,
  create_dualstack_socket, create_socket, socket_address,
}
use raptor_lite.WinSockets.Opened.{
  without_head, set_non_blocking-Quiet, set_int_option-Quiet, prepare-Quiet, Makes,
  create_dualstack_socket-Opens,
}
use raptor_lite.WinConnector.{
  Entry, Heap, store, WinConnector, process_property, get_connect_ex_if_necessary, bind_local,
  begun, after_connect_ex, start_connecting, settled, with_settings, with_socket, internal_connect,
  connect,
}
use raptor_lite.WinConnector.Records.{
  fds_of, World, world, Owns, fds_store, Live-store, unused, times_cons,
}

-- What is left of the sockets when an operation that gives up has closed its own.
abbrev Same : World → WinConnector → Trace → Type 0
Same w s t = (s.heap ≡ w.con.heap) × (s.records ≡ w.con.records) × (opened t ≡ opened w.trace)

Same-Owns :
    (w : World) (s : WinConnector) (t : Trace) → Owns w → Same w s t → Owns (world s t w.handed)
Same-Owns w s t v (h, r, o) = record {
  live = rw (h, r) v.live;
  apart = rw r v.apart;
  owned = rw (h, r, o) v.owned;
}

module _ (os : Os) where
  pub process_property-keeps :
      (fd : ℕ) (p : Property) (t : Trace) → opened (process_property os fd p t) ≡ opened t
  unfolding process_property set_socket_reuse_addr set_socket_low_latency set_socket_snd_timeout
      set_socket_rcv_timeout
  process_property-keeps fd p t =
      when_false-keeps os (check_value to_bool p "SocketNonBlocking") _ _
        (set_non_blocking-Quiet os fd false)
      ∙ when_positive-keeps os (check_value to_int32 p "SocketRecvTimeoutMs") _ _
          (λ n. set_timeout-Quiet os fd rcv_timeo n)
      ∙ when_positive-keeps os (check_value to_int32 p "SocketSendTimeoutMs") _ _
          (λ n. set_timeout-Quiet os fd snd_timeo n)
      ∙ when_false-keeps os (check_value to_bool p "SocketLowLatency") _ _
          (set_int_option-Quiet os fd tcp_nodelay false)
      ∙ when_false-keeps os (check_value to_bool p "SocketReuseAddress") _ t
          (set_int_option-Quiet os fd reuse_addr false)

  get_connect_ex-Quiet : (has : Bool) (fd : ℕ) → Quiet (get_connect_ex_if_necessary os has fd)
  unfolding get_connect_ex_if_necessary
  get_connect_ex-Quiet true fd = record { keeps = λ t. refl }
  get_connect_ex-Quiet false fd = record {
    keeps =
        (if_zero-Quiet os (get_function fd fn_connect_ex) (posix (get_function fd fn_connect_ex))
          succeed (λ a xs. refl) succeed-Quiet).keeps;
  }

module _ (os : Os) (ntohs htons : ℕ → ℕ) where
  bind_local-Quiet : (fd : ℕ) → Quiet (bind_local os htons fd)
  unfolding bind_local
  bind_local-Quiet fd = record { keeps = λ t. by_address t (sockaddr_make_wildcard6 htons (pos 0)) }
    where
      by_address :
          (t : Trace) (o : Option ResolvedAddress)
          → opened (
              (elim o as (λ _. Outcome) [
                | none ↦ (none, t)
                | some local ↦
                    if_zero (posix (bind_to fd local)) succeed (call os (bind_to fd local) t)
              ]).1)
            ≡ opened t
      by_address t none = refl
      by_address t (some local) =
          (if_zero-Quiet os (bind_to fd local) (posix (bind_to fd local)) succeed (λ a xs. refl)
              succeed-Quiet).keeps
            t

  settled-keeps :
      (timeout : ℤ) (fd : ℕ) (has : Bool) (t : Trace)
      → opened (settled os htons timeout fd has t).1.1 ≡ opened t
  unfolding settled
  settled-keeps timeout fd has t =
      (>>-Quiet _ _ (>>-Quiet _ _ (prepare-Quiet os fd timeout) (get_connect_ex-Quiet os has fd))
          (bind_local-Quiet fd)).keeps
        t

  -- A new record with its socket.
  begun-Owns :
      (id fd user : ℕ) (mapped : ResolvedAddress) (w : World) (s : WinConnector) (t : Trace)
      → Owns w
      → w.con.heap id ≡ none
      → s.heap ≡ w.con.heap
      → s.records ≡ w.con.records
      → opened t ≡ fd ∷ opened w.trace
      → Owns (world (begun os id fd user mapped s) t w.handed)
  begun-Owns id fd user mapped w s t v f h r o =
      let e : Entry = record { fd = fd; user = user; handle_id = s.counter; addr = mapped } in
      let new : times id s.records ≡ 0 = rw r (unused w.con.heap id w.con.records f v.live) in
      let self : (id == id) ≡ true = ==_self id in
      record {
        live = ((e, rw self refl), Live-store s.heap id (some e) s.records new (rw (h, r) v.live));
        apart = λ n. omega (arith, apart_new s.records id (rw r v.apart) new n);
        owned = λ n.
            ap (times n) o
            ∙ omega (
              arith,
              v.owned n,
              ap (λ (q : Heap × List ℕ). times n (fds_of q.0 q.1)) (pair h r),
              ap (times n) (fds_store s.heap id (some e) s.records new),
              times_cons n (store s.heap id (some e) id) e
                  (fds_of (store s.heap id (some e)) s.records) (rw self refl),
            );
      }
    where
      pair : {a b : Heap} {c d : List ℕ} → a ≡ b → c ≡ d → ◌≡◌ {A = Heap × List ℕ} (a, c) (b, d)
      pair p q i = (p i, q i)

  started-Owns :
      (id fd user : ℕ) (mapped : ResolvedAddress) (w : World) (s : WinConnector) (t : Trace)
      → Owns w
      → w.con.heap id ≡ none
      → s.heap ≡ w.con.heap
      → s.records ≡ w.con.records
      → opened t ≡ fd ∷ opened w.trace
      → let q = start_connecting os true id fd user mapped s t in Owns (world q.0.0 q.1 w.handed)
  unfolding start_connecting after_connect_ex call
  started-Owns id fd user mapped w s t v f h r o =
      by_answer (os.answer (call os (poll_add fd) t).1 (connect_ex fd mapped))
    where
      by_answer :
          (a : ℤ)
          → let q =
              after_connect_ex os true id fd mapped
                (begun os id fd user mapped s)
                (a, (connect_ex fd mapped, a) ∷ (call os (poll_add fd) t).1) in
            Owns (world q.0.0 q.1 w.handed)
      by_answer (pos n) = begun-Owns id fd user mapped w s _ v f h r o
      by_answer (negsuc n) = begun-Owns id fd user mapped w s _ v f h r o

  with_settings-Owns :
      (id fd user : ℕ) (mapped : ResolvedAddress) (w : World) (r : Bool × Outcome)
      → Owns w
      → w.con.heap id ≡ none
      → opened r.1.1 ≡ fd ∷ opened w.trace
      → let q = with_settings os true id fd user mapped w.con r in Owns (world q.0.0 q.1 w.handed)
  unfolding with_settings call
  with_settings-Owns id fd user mapped w (has, (none, t)) v f o =
      started-Owns id fd user mapped w w.con t v f refl refl o
  with_settings-Owns id fd user mapped w (has, (some e, t)) v f o =
      Same-Owns w (record (w.con) { has_connect_ex = has }) _ v
        (refl, refl, ap (without fd) o ∙ without_head fd (opened w.trace))

  with_socket-Owns :
      (id user : ℕ) (mapped : ResolvedAddress) (w : World) (status : Option Fault) (a : ℤ)
      (t : Trace)
      → Owns w
      → w.con.heap id ≡ none
      → Makes os status a (opened w.trace) (opened t)
      → let q = with_socket os htons true id user mapped w.con (status, a) t in
        Owns (world q.0.0 q.1 w.handed)
  unfolding with_socket
  with_socket-Owns id user mapped w (some e) (pos fd) t v f (m, wrong, o) = cc
  with_socket-Owns id user mapped w (some e) (negsuc n) t v f (m, k, o) =
      Same-Owns w w.con t v (refl, refl, o)
  with_socket-Owns id user mapped w none (pos fd) t v f (m, same, o) =
      let eq : m ≡ fd = cc in
      with_settings-Owns id fd user mapped w
        (settled os htons w.con.user_timeout fd w.con.has_connect_ex t) v f
        (settled-keeps w.con.user_timeout fd w.con.has_connect_ex t
          ∙ o
          ∙ ap (λ (x : ℕ). x ∷ opened w.trace) eq)
  with_socket-Owns id user mapped w none (negsuc n) t v f (m, same, o) = cc

  pub connects-Owns :
      (w : World) (resolved : Option (List ResolvedAddress)) (id user : ℕ)
      → Owns w
      → w.con.heap id ≡ none
      → let q = connect os ntohs htons true resolved id user w.con w.trace in
        Owns (world q.0.0 q.1 w.handed)
  unfolding connect internal_connect create_socket
  connects-Owns w none id user v f = v
  connects-Owns w (some []) id user v f = v
  connects-Owns w (some (addr ∷ addrs)) id user v f =
      let mapped = socket_address ntohs htons addr in
      let r = create_dualstack_socket os mapped w.trace in
      with_socket-Owns id user mapped w r.0.status r.0.new_fd r.1 v f
        (create_dualstack_socket-Opens os mapped w.trace)
