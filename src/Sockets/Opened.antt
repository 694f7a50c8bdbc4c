-- ===== src/Sockets/Opened.antt =====
-- Which descriptors are open: none is lost on an error path.
use raptor_lite.Common.{
  ℕ, zero, suc, ◌≡◌, ◌≢◌, refl, ap, ◌∙◌, subst, Bool, true, false, Option, none, some, List, [],
  ◌∷◌, ◌==◌, ==_self, if◌then◌else◌, is_some, inl, inr, Bool-cases, not,
}
use raptor_lite.Common.Int.{ℤ, pos, negsuc}
use raptor_lite.Address.{
  ResolvedAddress, af_inet, af_inet6, sockaddr_get_family, sockaddr_is_v4mapped,
}
use raptor_lite.Sockets.{
  Opt, reuse_addr, tcp_nodelay, reuse_port, tcp_user_timeout, Call, open_socket, set_option,
  get_option, get_flags, get_fd_flags, set_flags, set_fd_flags, bind_to, listen_on, accept_on,
  name_of, close_fd, Trace, Os, Fault, posix, Outcome, Check, succeed, next, ◌>>◌, unless_negative,
  if_zero, checked, as_int, with_flag, o_nonblock, fd_cloexec, is_unix, Created, if_positive,
  default_tcp_user_timeout, call, set_socket_nonblocking, set_socket_cloexec, set_checked,
  set_socket_reuse_addr, set_socket_low_latency, set_socket_reuse_port, set_socket_ipv6_only,
  set_socket_tcp_user_timeout, set_socket_no_sigpipe_if_possible, create_in, create_other,
  create_v6_with, create_v6, close_if_open, create_dualstack_socket, closing_on_error, calling,
  server_settings, tcp_server_prepare_socket, client_settings, client_prepare, user_timeout_of,
  prepared, client_with, tcp_client_prepare_socket, mapped_address, dsmode_address,
}

abbrev pub without : ℕ → List ℕ → List ℕ
without n [] = []
without n (x ∷ xs) = let rest = without n xs in if n == x then xs else x ∷ rest

-- What a call does to the descriptors that are open.
abbrev pub change : Call → ℤ → List ℕ → List ℕ
change (open_socket f) (pos n) xs = n ∷ xs
change (accept_on l) (pos n) xs = n ∷ xs
change (close_fd n) a xs = without n xs
change c a xs = xs

abbrev pub opened : Trace → List ℕ
opened [] = []
opened ((c, a) ∷ t) = change c a (opened t)

-- The descriptors that are open stay so, and no others are opened.
pub record Quiet (m : Check) : Type 0 where
  pub keeps : (t : Trace) → opened (m t).1 ≡ opened t

abbrev pub QuietCall : Call → Type 0
QuietCall c = (a : ℤ) (xs : List ℕ) → change c a xs ≡ xs

pub >>-Quiet : (m k : Check) → Quiet m → Quiet k → Quiet (m >> k)
>>-Quiet m k h g = record { keeps = λ t. after t (m t) (h.keeps t) }
  where
    after : (t : Trace) (o : Outcome) → opened o.1 ≡ opened t → opened (next k o).1 ≡ opened t
    after t (none, t') e = g.keeps t' ∙ e
    after t (some f, t') e = e

pub succeed-Quiet : Quiet succeed
succeed-Quiet = record { keeps = λ t. refl }

pub if-Quiet : (b : Bool) (m k : Check) → Quiet m → Quiet k → Quiet (if b then m else k)
if-Quiet true m k h g = h
if-Quiet false m k h g = g

checked-Quiet : (b : Bool) (opt : Opt) → Quiet (checked b opt)
checked-Quiet true opt = record { keeps = λ t. refl }
checked-Quiet false opt = record { keeps = λ t. refl }

module _ (os : Os) where
  pub unless_negative-Quiet :
      (c : Call) (e : Fault) (k : ℕ → Check)
      → QuietCall c
      → ((n : ℕ) → Quiet (k n))
      → Quiet (λ t. unless_negative e k (call os c t))
  unfolding call
  unless_negative-Quiet c e k q h = record { keeps = λ t. by_answer t (os.answer t c) }
    where
      by_answer : (t : Trace) (a : ℤ) → opened (unless_negative e k (a, (c, a) ∷ t)).1 ≡ opened t
      by_answer t (pos n) = (h n).keeps ((c, pos n) ∷ t) ∙ q (pos n) (opened t)
      by_answer t (negsuc n) = q (negsuc n) (opened t)

  pub if_zero-Quiet :
      (c : Call) (e : Fault) (k : Check)
      → QuietCall c
      → Quiet k
      → Quiet (λ t. if_zero e k (call os c t))
  unfolding call
  if_zero-Quiet c e k q h = record { keeps = λ t. by_answer t (os.answer t c) }
    where
      by_answer : (t : Trace) (a : ℤ) → opened (if_zero e k (a, (c, a) ∷ t)).1 ≡ opened t
      by_answer t (pos zero) = h.keeps ((c, pos 0) ∷ t) ∙ q (pos 0) (opened t)
      by_answer t (pos (suc n)) = q (pos (suc n)) (opened t)
      by_answer t (negsuc n) = q (negsuc n) (opened t)

  pub set_socket_nonblocking-Quiet : (fd : ℕ) (on : Bool) → Quiet (set_socket_nonblocking os fd on)
  unfolding set_socket_nonblocking
  set_socket_nonblocking-Quiet fd on =
      unless_negative-Quiet (get_flags fd) (posix (get_flags fd)) _ (λ a xs. refl)
        (λ old.
          if_zero-Quiet (set_flags fd (with_flag on o_nonblock old))
            (posix (set_flags fd (with_flag on o_nonblock old))) succeed (λ a xs. refl)
            succeed-Quiet)

  set_socket_cloexec-Quiet : (fd : ℕ) (on : Bool) → Quiet (set_socket_cloexec os fd on)
  unfolding set_socket_cloexec
  set_socket_cloexec-Quiet fd on =
      unless_negative-Quiet (get_fd_flags fd) (posix (get_fd_flags fd)) _ (λ a xs. refl)
        (λ old.
          if_zero-Quiet (set_fd_flags fd (with_flag on fd_cloexec old))
            (posix (set_fd_flags fd (with_flag on fd_cloexec old))) succeed (λ a xs. refl)
            succeed-Quiet)

  pub set_checked-Quiet : (fd : ℕ) (opt : Opt) (on : Bool) → Quiet (set_checked os fd opt on)
  unfolding set_checked
  set_checked-Quiet fd opt on =
      if_zero-Quiet (set_option fd opt (as_int on)) (posix (set_option fd opt (as_int on))) _
        (λ a xs. refl)
        (unless_negative-Quiet (get_option fd opt) (posix (get_option fd opt)) _ (λ a xs. refl)
          (λ value. checked-Quiet (as_int (not (value == 0)) == as_int on) opt))

  pub set_socket_ipv6_only-Quiet : (fd : ℕ) (only : Bool) → Quiet (set_socket_ipv6_only os fd only)
  unfolding set_socket_ipv6_only
  set_socket_ipv6_only-Quiet fd only = if_zero-Quiet _ _ succeed (λ a xs. refl) succeed-Quiet

  set_socket_tcp_user_timeout-Quiet :
      (fd timeout : ℕ) → Quiet (set_socket_tcp_user_timeout os fd timeout)
  unfolding set_socket_tcp_user_timeout call
  set_socket_tcp_user_timeout-Quiet fd timeout = record {
    keeps =
        (if_zero-Quiet (set_option fd tcp_user_timeout timeout)
          (posix (set_option fd tcp_user_timeout timeout))
          (λ t'. (none, (call os (get_option fd tcp_user_timeout) t').1)) (λ a xs. refl)
          (record { keeps = λ t. refl })).keeps;
  }

  pub calling-Quiet : (c : Call) → QuietCall c → Quiet (calling os c)
  unfolding calling
  calling-Quiet c q = unless_negative-Quiet c (posix c) (λ n. succeed) q (λ n. succeed-Quiet)

  -- What the settings of a new socket do to the open descriptors: nothing.
  tcp_settings-Quiet :
      (fd timeout : ℕ) (unix : Bool)
      → Quiet (
          if unix
          then succeed
          else set_socket_low_latency os fd true
            >> set_socket_reuse_addr os fd true
            >> set_socket_tcp_user_timeout os fd timeout)
  unfolding set_socket_low_latency set_socket_reuse_addr
  tcp_settings-Quiet fd timeout unix = if-Quiet unix _ _ succeed-Quiet (
      >>-Quiet _ _ (set_checked-Quiet fd tcp_nodelay true) (
        >>-Quiet _ _ (set_checked-Quiet fd reuse_addr true)
          (set_socket_tcp_user_timeout-Quiet fd timeout)))

  pub server_settings-Quiet :
      (fd : ℕ) (addr : ResolvedAddress) (reuse : Bool) → Quiet (server_settings os fd addr reuse)
  unfolding server_settings set_socket_reuse_port set_socket_no_sigpipe_if_possible
  server_settings-Quiet fd addr reuse =
      >>-Quiet _ _
        (if-Quiet (is_unix addr) _ _ succeed-Quiet
          (if-Quiet reuse _ _ (set_checked-Quiet fd reuse_port true) succeed-Quiet))
        (>>-Quiet _ _ (set_socket_nonblocking-Quiet fd true) (
          >>-Quiet _ _ (set_socket_cloexec-Quiet fd true) (
            >>-Quiet _ _ (tcp_settings-Quiet fd default_tcp_user_timeout (is_unix addr)) (
              >>-Quiet _ _ succeed-Quiet (
                >>-Quiet _ _ (calling-Quiet (bind_to fd addr) (λ a xs. refl)) (
                  >>-Quiet _ _ (calling-Quiet (listen_on fd) (λ a xs. refl))
                    (calling-Quiet (name_of fd) (λ a xs. refl))))))))

  client_settings-Quiet :
      (fd : ℕ) (addr : ResolvedAddress) (timeout : ℕ) → Quiet (client_settings os fd addr timeout)
  unfolding client_settings set_socket_no_sigpipe_if_possible
  client_settings-Quiet fd addr timeout = >>-Quiet _ _ (set_socket_nonblocking-Quiet fd true) (
      >>-Quiet _ _ (set_socket_cloexec-Quiet fd true)
        (>>-Quiet _ _ (tcp_settings-Quiet fd timeout (is_unix addr)) succeed-Quiet))

  -- With an error the descriptor is closed, and without one nothing is.
  abbrev pub ClosedOnError : ℕ → List ℕ → Outcome → Type 0
  ClosedOnError fd xs (none, t) = opened t ≡ xs
  ClosedOnError fd xs (some e, t) = opened t ≡ without fd xs

  pub closing_on_error-ClosedOnError :
      (fd : ℕ) (xs : List ℕ) (o : Outcome)
      → opened o.1 ≡ xs
      → ClosedOnError fd xs (closing_on_error os fd o)
  unfolding closing_on_error call
  closing_on_error-ClosedOnError fd xs (none, t) h = h
  closing_on_error-ClosedOnError fd xs (some e, t) h = ap (without fd) h

  -- `raptor_tcp_server_prepare_socket` closes its descriptor exactly if it fails, at whichever call.
  pub server_prepare-ClosedOnError :
      (fd : ℕ) (addr : ResolvedAddress) (reuse : Bool) (t : Trace)
      → ClosedOnError fd (opened t) (tcp_server_prepare_socket os fd addr reuse t)
  unfolding tcp_server_prepare_socket
  server_prepare-ClosedOnError fd addr reuse t =
      closing_on_error-ClosedOnError fd (opened t) (server_settings os fd addr reuse t)
        ((server_settings-Quiet fd addr reuse).keeps t)

  client_prepare-ClosedOnError :
      (fd : ℕ) (addr : ResolvedAddress) (timeout : ℤ) (t : Trace)
      → ClosedOnError fd (opened t) (client_prepare os fd addr timeout t)
  unfolding client_prepare
  client_prepare-ClosedOnError fd addr timeout t =
      closing_on_error-ClosedOnError fd (opened t)
        (client_settings os fd addr (user_timeout_of timeout) t)
        ((client_settings-Quiet fd addr (user_timeout_of timeout)).keeps t)

  -- A call without an error has opened the descriptor that it gives, and nothing else; one with an
  -- error has left none open.
  abbrev pub Opens : Option Fault → ℤ → List ℕ → List ℕ → Type 0
  Opens none fd xs ys = (n : ℕ) × (fd ≡ pos n) × (ys ≡ n ∷ xs)
  Opens (some e) fd xs ys = ys ≡ xs

  module _ (never_zero : (t : Trace) (f : ℕ) → os.answer t (open_socket f) ≢ pos 0) where
    create_in-Opens :
        (f : ℕ) (t : Trace)
        → Opens
            (create_in os f t).0.status
            (create_in os f t).0.new_fd
            (opened t)
            (opened (create_in os f t).1)
    unfolding create_in call
    create_in-Opens f t = by_answer (os.answer t (open_socket f)) (never_zero t f)
      where
        by_answer :
            (a : ℤ)
            → a ≢ pos 0
            → Opens (if_positive f a) a (opened t) (change (open_socket f) a (opened t))
        by_answer (pos zero) h = absurd (h refl)
        by_answer (pos (suc n)) h = (suc n, refl, refl)
        by_answer (negsuc n) h = refl

    abbrev OpensBy : List ℕ → Created × Trace → Type 0
    OpensBy xs r = Opens r.0.status r.0.new_fd xs (opened r.1)

    -- The descriptor at hand is the one that was opened last, and it is not 0.
    create_other-Opens :
        (addr : ResolvedAddress) (n : ℕ) (xs : List ℕ) (t : Trace)
        → opened t ≡ suc n ∷ xs
        → OpensBy xs (create_other os addr (pos (suc n)) t)
    unfolding create_other close_if_open call
    create_other-Opens addr n xs t e = elim (Bool-cases (is_some (sockaddr_is_v4mapped addr))) [
      | inl mapped ↦ rw mapped (
          subst
            (λ (ys : List ℕ). OpensBy ys (create_in os af_inet (close_if_open os (pos (suc n)) t)))
            (ap (without (suc n)) e ∙ closed)
            (create_in-Opens af_inet (close_if_open os (pos (suc n)) t)))
      | inr plain ↦ rw plain (suc n, refl, e)
    ]
      where
        closed : without (suc n) (suc n ∷ xs) ≡ xs
        closed = rw (==_self (suc n)) refl

    create_failed-Opens :
        (addr : ResolvedAddress) (n : ℕ) (t : Trace)
        → OpensBy (opened t) (create_other os addr (negsuc n) t)
    unfolding create_other close_if_open
    create_failed-Opens addr n t = elim (Bool-cases (is_some (sockaddr_is_v4mapped addr))) [
      | inl mapped ↦ rw mapped (create_in-Opens af_inet t)
      | inr plain ↦ rw plain refl
    ]

    create_v6_with-Opens :
        (addr : ResolvedAddress) (n : ℕ) (xs : List ℕ) (o : Outcome)
        → opened o.1 ≡ suc n ∷ xs
        → OpensBy xs (create_v6_with os addr (suc n) o)
    unfolding create_v6_with
    create_v6_with-Opens addr n xs (none, t) e = (suc n, refl, e)
    create_v6_with-Opens addr n xs (some f, t) e = create_other-Opens addr n xs t e

    create_v6-Opens :
        (addr : ResolvedAddress) (a : ℤ) (t : Trace)
        → a ≢ pos 0
        → OpensBy (opened t) (create_v6 os addr (a, (open_socket af_inet6, a) ∷ t))
    unfolding create_v6
    create_v6-Opens addr (pos zero) t h = absurd (h refl)
    create_v6-Opens addr (pos (suc n)) t h =
        create_v6_with-Opens addr n (opened t)
          (set_socket_ipv6_only os (suc n) false ((open_socket af_inet6, pos (suc n)) ∷ t))
          ((set_socket_ipv6_only-Quiet (suc n) false).keeps
            ((open_socket af_inet6, pos (suc n)) ∷ t))
    create_v6-Opens addr (negsuc n) t h =
        create_failed-Opens addr n ((open_socket af_inet6, negsuc n) ∷ t)

    pub create_dualstack_socket-Opens :
        (addr : ResolvedAddress) (t : Trace)
        → OpensBy (opened t) (create_dualstack_socket os addr t)
    unfolding create_dualstack_socket call
    create_dualstack_socket-Opens addr t =
        elim (Bool-cases (sockaddr_get_family addr == af_inet6)) [
          | inl six ↦
              rw six (
                create_v6-Opens addr (os.answer t (open_socket af_inet6)) t (never_zero t af_inet6))
          | inr four ↦ rw four (create_in-Opens (sockaddr_get_family addr) t)
        ]

    -- The result of the preparation of a client's socket.
    abbrev pub ClientOpens : List ℕ → (Option Fault × ResolvedAddress × ℕ) × Trace → Type 0
    ClientOpens xs r = Opens r.0.0 (pos r.0.2) xs (opened r.1)

    prepared-ClientOpens :
        (used : ResolvedAddress) (fd : ℕ) (xs ys : List ℕ) (o : Outcome)
        → ys ≡ fd ∷ xs
        → ClosedOnError fd ys o
        → ClientOpens xs (prepared os used fd o)
    unfolding prepared
    prepared-ClientOpens used fd xs ys (none, t) e h = (fd, refl, h ∙ e)
    prepared-ClientOpens used fd xs ys (some f, t) e h = h ∙ ap (without fd) e ∙ closed
      where
        closed : without fd (fd ∷ xs) ≡ xs
        closed = rw (==_self fd) refl

    client_with-ClientOpens :
        (mapped used : ResolvedAddress) (timeout : ℤ) (xs : List ℕ) (status : Option Fault) (a : ℤ)
        (t : Trace)
        → Opens status a xs (opened t)
        → ClientOpens xs (client_with os mapped used timeout (status, a) t)
    unfolding client_with
    client_with-ClientOpens mapped used timeout xs (some e) a t h = h
    client_with-ClientOpens mapped used timeout xs none (pos fd) t (n, e, h) =
        let same : n ≡ fd = cc in
        prepared-ClientOpens used fd xs (opened t) (client_prepare os fd used timeout t)
          (h ∙ ap (λ (m : ℕ). m ∷ xs) same) (client_prepare-ClosedOnError fd used timeout t)
    client_with-ClientOpens mapped used timeout xs none (negsuc k) t (n, e, h) = cc

    -- If the system never gives descriptor 0 to a new socket: `raptor_tcp_client_prepare_socket` without
    -- an error has opened the descriptor that it gives and no other, and with an error, at whichever
    -- call, it has left none open.
    pub client_socket-ClientOpens :
        (addr : ResolvedAddress) (timeout : ℤ) (t : Trace)
        → ClientOpens (opened t) (tcp_client_prepare_socket os addr timeout t)
    unfolding tcp_client_prepare_socket
    client_socket-ClientOpens addr timeout t =
        let r = create_dualstack_socket os (mapped_address addr) t in
        client_with-ClientOpens (mapped_address addr)
          (dsmode_address r.0.mode addr (mapped_address addr)) timeout (opened t) r.0.status
          r.0.new_fd r.1 (create_dualstack_socket-Opens (mapped_address addr) t)
