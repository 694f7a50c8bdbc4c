-- ===== src/Connector/Owned.antt =====
-- Every descriptor that a connector opens is in a record, with the application, or closed.
use raptor_lite.Common.{
  one, times, one_self, ℕ, zero, suc, ◌+◌, ◌≡◌, ◌≢◌, refl, ap, ◌∙◌, Bool, true, false, Option, none,
  some, List, [], ◌∷◌, ◌==◌, ==_self, inl, inr, Bool-cases, arith,
}
use raptor_lite.Common.Int.{ℤ, pos, negsuc}
use raptor_lite.Address.{ResolvedAddress}
use raptor_lite.Property.{Property, check_value, to_bool, to_int32}
use raptor_lite.Sockets.{
  Os, Trace, Check, Fault, Opt, reuse_addr, tcp_nodelay, snd_timeo, rcv_timeo, open_socket,
  close_fd, connect_to, call, succeed, set_timeout, set_socket_reuse_addr, set_socket_low_latency,
  set_socket_snd_timeout, set_socket_rcv_timeout, set_socket_shutdown, tcp_client_prepare_socket,
}
use raptor_lite.Sockets.Counted.{times-without}
use raptor_lite.Sockets.Opened.{
  without, opened, Quiet, if_zero-Quiet, set_checked-Quiet, set_socket_nonblocking-Quiet,
  ClientOpens, client_socket-ClientOpens,
}
use raptor_lite.Connector.{
  Entry, Connector, when_false, when_positive, Notice, Errno, is_pending, put_back, take_record,
  process_property, close_all, shutdown_connector, connect_loop, connecting, async_connect, connect,
  event_of, on_connect_event,
}

abbrev pub fds : List Entry → List ℕ
fds [] = []
fds (e ∷ es) = e.fd ∷ fds es

-- The record that is taken, with the others, has the descriptors of all.
abbrev Taken : List Entry → Option (Entry × List Entry) → Type 0
Taken es none = Unit {0}
Taken es (some (e, rest)) = (n : ℕ) → times n (fds es) ≡ one n e.fd + times n (fds rest)

put_back-Taken :
    (e : Entry) (es : List Entry) (o : Option (Entry × List Entry))
    → Taken es o
    → Taken (e ∷ es) (put_back e o)
put_back-Taken e es none h = tt
put_back-Taken e es (some (f, rest)) h = λ n. omega (arith, h n)

take_record-Taken : (id : ℕ) (es : List Entry) → Taken es (take_record id es)
unfolding take_record
take_record-Taken id [] = tt
take_record-Taken id (e ∷ es) = elim (Bool-cases (e.id == id)) [
  | inl at ↦ rw at (λ n. refl)
  | inr ne ↦ rw ne (put_back-Taken e es (take_record id es) (take_record-Taken id es))
]

-- A connector with what has been called and the descriptors that others have, the application with
-- those that `OnConnect` gave it among them.
pub record World : Type 0 where
  pub con : Connector
  pub trace : Trace
  pub handed : List ℕ

-- Every open descriptor is in a record, or with others, and just once.
abbrev pub Owned : World → Type 0
Owned w = (n : ℕ) → times n (opened w.trace) ≡ times n (fds w.con.records) + times n w.handed

abbrev pub world : Connector → Trace → List ℕ → World
world con trace handed = record { con = con; trace = trace; handed = handed }

pub data Move : Type 0 where
  connects :
      (interrupts : ℕ) → Errno → (resolved : Option (List ResolvedAddress)) → (id user : ℕ) → Move
  event : (id : ℕ) → (sends online : Bool) → Property → Move
  shuts : Move

abbrev pub told_of : List Notice → List ℕ → List ℕ
told_of [] handed = handed
told_of (Notice.connected fd user ∷ ns) handed = fd ∷ told_of ns handed
told_of (Notice.error_occurred fd ∷ ns) handed = told_of ns handed

abbrev pub after_event : World → Option ((Connector × List Notice) × Trace) → World
after_event w none = w
after_event w (some r) = world r.0.0 r.1 (told_of r.0.1 w.handed)

module _ (os : Os) where
  unfoldable pub move : World → Move → World
  move w (connects interrupts errno resolved id user) =
      let r = connect os interrupts errno resolved id user w.con w.trace in world r.0.0 r.1 w.handed
  move w (event id sends online p) =
      after_event w (on_connect_event os id sends online p w.con w.trace)
  move w shuts = let r = shutdown_connector os w.con w.trace in world r.0 r.1 w.handed

  unfoldable pub moves : List Move → World → World
  moves [] w = w
  moves (m ∷ ms) w = moves ms (move w m)

  pub when_false-keeps :
      (o : Option Bool) (m : Check) (t : Trace) → Quiet m → opened (when_false o m t) ≡ opened t
  when_false-keeps none m t q = refl
  when_false-keeps (some true) m t q = refl
  when_false-keeps (some false) m t q = q.keeps t

  pub when_positive-keeps :
      (o : Option ℤ) (m : ℕ → Check) (t : Trace)
      → ((n : ℕ) → Quiet (m n))
      → opened (when_positive o m t) ≡ opened t
  when_positive-keeps none m t q = refl
  when_positive-keeps (some (negsuc n)) m t q = refl
  when_positive-keeps (some (pos zero)) m t q = refl
  when_positive-keeps (some (pos (suc n))) m t q = (q (suc n)).keeps t

  pub set_timeout-Quiet : (fd : ℕ) (opt : Opt) (ms : ℕ) → Quiet (set_timeout os fd opt ms)
  unfolding set_timeout
  set_timeout-Quiet fd opt ms =
      if_zero-Quiet os _ _ succeed (λ a xs. refl) (record { keeps = λ t. refl })

  pub process_property-keeps :
      (fd : ℕ) (p : Property) (t : Trace) → opened (process_property os fd p t) ≡ opened t
  unfolding process_property set_socket_reuse_addr set_socket_low_latency set_socket_snd_timeout
      set_socket_rcv_timeout
  process_property-keeps fd p t =
      when_false-keeps (check_value to_bool p "SocketNonBlocking") _ _
        (set_socket_nonblocking-Quiet os fd false)
      ∙ when_positive-keeps (check_value to_int32 p "SocketRecvTimeoutMs") _ _
          (λ n. set_timeout-Quiet fd rcv_timeo n)
      ∙ when_positive-keeps (check_value to_int32 p "SocketSendTimeoutMs") _ _
          (λ n. set_timeout-Quiet fd snd_timeo n)
      ∙ when_false-keeps (check_value to_bool p "SocketLowLatency") _ _
          (set_checked-Quiet os fd tcp_nodelay false)
      ∙ when_false-keeps (check_value to_bool p "SocketReuseAddress") _ t
          (set_checked-Quiet os fd reuse_addr false)

  connect_loop-keeps :
      (k fd : ℕ) (addr : ResolvedAddress) (t : Trace)
      → opened (connect_loop os k fd addr t) ≡ opened t
  unfolding connect_loop call
  connect_loop-keeps zero fd addr t = refl
  connect_loop-keeps (suc k) fd addr t =
      connect_loop-keeps k fd addr (call os (connect_to fd addr) t).1

  -- `Shutdown` closes the descriptors of all records.
  close_all-times :
      (es : List Entry) (t : Trace) (others : List ℕ)
      → ((n : ℕ) → times n (opened t) ≡ times n (fds es) + times n others)
      → (n : ℕ) → times n (opened (close_all os es t)) ≡ times n others
  unfolding close_all call
  close_all-times [] t others h = λ n. omega (arith, h n)
  close_all-times (e ∷ es) t others h =
      close_all-times es (call os (close_fd e.fd) t).1 others (λ n.
        let self : one e.fd e.fd ≡ 1 = one_self e.fd in
        omega (arith, h n, times-without n e.fd (opened t) (omega (arith, h e.fd, self))))

  shuts-Owned : (w : World) → Owned w → Owned (move w shuts)
  unfolding move shutdown_connector
  shuts-Owned w h = elim (Bool-cases w.con.is_shut) [
    | inl e ↦ rw e h
    | inr ne ↦ rw ne (λ n. omega (arith, close_all-times w.con.records w.trace w.handed h n))
  ]

  event_of-Owned :
      (sends online : Bool) (p : Property) (w : World) (e : Entry) (es : List Entry)
      → Owned w
      → Taken w.con.records (some (e, es))
      → Owned (after_event w (some (event_of os sends online p w.con w.trace (e, es))))
  unfolding event_of call
  event_of-Owned true true p w e es h k n =
      ap (times n) (process_property-keeps e.fd p _) ∙ omega (arith, h n, k n)
  event_of-Owned true false p w e es h k n = omega (arith, h n, k n)
  event_of-Owned false online p w e es h k n =
      let self : one e.fd e.fd ≡ 1 = one_self e.fd in
      omega (
        arith,
        h n,
        k n,
        times-without n e.fd (opened w.trace) (omega (arith, h e.fd, k e.fd, self)),
      )

  event-Owned :
      (w : World) (id : ℕ) (sends online : Bool) (p : Property)
      → Owned w
      → Owned (move w (event id sends online p))
  unfolding move on_connect_event
  event-Owned w id sends online p h =
      by_record (take_record id w.con.records) (take_record-Taken id w.con.records)
    where
      by_record :
          (o : Option (Entry × List Entry))
          → Taken w.con.records o
          → Owned (
              after_event w (elim o [
                | none ↦ none
                | some found ↦ some (event_of os sends online p w.con w.trace found)
              ]))
      by_record none k = h
      by_record (some (e, es)) k = event_of-Owned sends online p w e es h k

  module _ (never_zero : (t : Trace) (f : ℕ) → os.answer t (open_socket f) ≢ pos 0) where
    connecting-Owned :
        (interrupts : ℕ) (errno : Errno) (id user : ℕ) (w : World)
        (r : (Option Fault × ResolvedAddress × ℕ) × Trace)
        → Owned w
        → ClientOpens os never_zero (opened w.trace) r
        → let q = connecting os interrupts errno id user w.con r in Owned (world q.0.0 q.1 w.handed)
    unfolding connecting set_socket_shutdown call
    connecting-Owned interrupts errno id user w ((some e, addr, fd), t) h o =
        λ n. ap (times n) o ∙ h n
    connecting-Owned interrupts errno id user w ((none, addr, fd), t) h (m, f, o) =
        let same : m ≡ fd = cc in
        let now : opened (connect_loop os interrupts fd addr t) ≡ fd ∷ opened w.trace =
          connect_loop-keeps interrupts fd addr t ∙ o ∙ ap (λ (x : ℕ). x ∷ opened w.trace) same in
        elim (Bool-cases (is_pending errno)) [
          | inl e ↦ rw e (λ n. ap (times n) now ∙ omega (arith, h n))
          | inr ne ↦ rw ne (λ n. ap (times n) (ap (without fd) now ∙ closed) ∙ h n)
        ]
      where
        closed : without fd (fd ∷ opened w.trace) ≡ opened w.trace
        closed = rw (==_self fd) refl

    connects-Owned :
        (w : World) (interrupts : ℕ) (errno : Errno) (resolved : Option (List ResolvedAddress))
        (id user : ℕ)
        → Owned w
        → Owned (move w (connects interrupts errno resolved id user))
    unfolding move connect async_connect
    connects-Owned w interrupts errno none id user h = h
    connects-Owned w interrupts errno (some []) id user h = h
    connects-Owned w interrupts errno (some (addr ∷ addrs)) id user h =
        connecting-Owned interrupts errno id user w
          (tcp_client_prepare_socket os addr w.con.user_timeout w.trace) h
          (client_socket-ClientOpens os never_zero addr w.con.user_timeout w.trace)

    move-Owned : (w : World) (m : Move) → Owned w → Owned (move w m)
    move-Owned w (connects interrupts errno resolved id user) h =
        connects-Owned w interrupts errno resolved id user h
    move-Owned w (event id sends online p) h = event-Owned w id sends online p h
    move-Owned w shuts h = shuts-Owned w h

    -- If the system never gives descriptor 0 to a new socket: whatever is asked of a connector, in any
    -- order and whichever calls fail, the descriptors that are open are those of its records and those
    -- that others had or were handed with `OnConnect`, each as often as it is open; and none of its own
    -- are left open by a `Shutdown` of a connector that runs.
    pub moves-Owned :
        (ms : List Move) (w : World)
        → Owned w
        → Owned (moves ms w)
          × ((moves ms w).con.is_shut ≡ false
              → (n : ℕ)
              → times n (opened (move (moves ms w) shuts).trace) ≡ times n (moves ms w).handed)
    unfolding moves move shutdown_connector
    moves-Owned [] w h = (h, λ e. rw e (λ n. close_all-times w.con.records w.trace w.handed h n))
    moves-Owned (m ∷ ms) w h = moves-Owned ms (move w m) (move-Owned w m h)
