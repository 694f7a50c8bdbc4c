-- ===== src/WinSockets/Opened.antt =====
-- Which sockets are open on Windows: none is lost on an error path of src/windows/socket_setting.cc.
use raptor_lite.Common.{
  ℕ, ◌≡◌, refl, ap, ◌∙◌, subst, Bool, true, false, Option, none, some, List, ◌∷◌, ◌==◌, ==_self,
  is_some, inl, inr, Bool-cases,
}
use raptor_lite.Common.Int.{ℤ, pos, negsuc}
use raptor_lite.Address.{
  ResolvedAddress, af_inet, af_inet6, sockaddr_get_family, sockaddr_is_v4mapped,
}
use raptor_lite.Sockets.{
  Opt, tcp_nodelay, open_socket, set_option, bind_to, listen_on, name_of, set_non_blocking, Trace,
  Os, Fault, posix, Outcome, succeed, as_int, Created, call,
}
use raptor_lite.Sockets.Opened.{
  without, change, opened, Quiet, >>-Quiet, succeed-Quiet, if_zero-Quiet, calling-Quiet,
  set_socket_ipv6_only-Quiet, ClosedOnError, closing_on_error-ClosedOnError,
}
use raptor_lite.WinSockets.{
  if_valid, set_socket_nonblocking, set_int_option, set_socket_low_latency,
  set_socket_tcp_user_timeout, create_in, close_if_valid, create_other, create_v6_with, create_v6,
  create_dualstack_socket, tcp_prepare_socket, tcp_server_prepare_socket,
}

pub without_head : (n : ℕ) (xs : List ℕ) → without n (n ∷ xs) ≡ xs
without_head n xs = rw (==_self n) refl

module _ (os : Os) where
  pub set_non_blocking-Quiet : (fd : ℕ) (on : Bool) → Quiet (set_socket_nonblocking os fd on)
  unfolding set_socket_nonblocking
  set_non_blocking-Quiet fd on =
      if_zero-Quiet os (set_non_blocking fd (as_int on)) (posix (set_non_blocking fd (as_int on)))
        succeed (λ a xs. refl) succeed-Quiet

  pub set_int_option-Quiet : (fd : ℕ) (opt : Opt) (on : Bool) → Quiet (set_int_option os fd opt on)
  unfolding set_int_option
  set_int_option-Quiet fd opt on =
      if_zero-Quiet os (set_option fd opt (as_int on)) (posix (set_option fd opt (as_int on)))
        succeed (λ a xs. refl) succeed-Quiet

  pub prepare-Quiet : (fd : ℕ) (timeout : ℤ) → Quiet (tcp_prepare_socket os fd timeout)
  unfolding tcp_prepare_socket set_socket_low_latency set_socket_tcp_user_timeout
  prepare-Quiet fd timeout = >>-Quiet _ _ (set_non_blocking-Quiet fd true) (
      >>-Quiet _ _ (set_socket_ipv6_only-Quiet os fd false)
        (>>-Quiet _ _ (set_int_option-Quiet fd tcp_nodelay true) succeed-Quiet))

  -- `raptor_tcp_server_prepare_socket` closes its socket exactly if it fails.
  pub server_prepare-ClosedOnError :
      (fd : ℕ) (addr : ResolvedAddress) (t : Trace)
      → ClosedOnError os fd (opened t) (tcp_server_prepare_socket os fd addr t)
  unfolding tcp_server_prepare_socket
  server_prepare-ClosedOnError fd addr t = closing_on_error-ClosedOnError os fd (opened t) _ (
      (>>-Quiet _ _ (prepare-Quiet fd (pos 0)) (
          >>-Quiet _ _ (calling-Quiet os (bind_to fd addr) (λ a xs. refl)) (
            >>-Quiet _ _ (calling-Quiet os (listen_on fd) (λ a xs. refl))
              (calling-Quiet os (name_of fd) (λ a xs. refl))))).keeps
        t)

  -- Without an error a socket has been opened, the one that is given, and with one it is INVALID_SOCKET
  -- and none is left open.
  abbrev pub Makes : Option Fault → ℤ → List ℕ → List ℕ → Type 0
  Makes none fd xs ys = (n : ℕ) × (fd ≡ pos n) × (ys ≡ n ∷ xs)
  Makes (some e) fd xs ys = (n : ℕ) × (fd ≡ negsuc n) × (ys ≡ xs)

  abbrev OpensBy : List ℕ → Created × Trace → Type 0
  OpensBy xs r = Makes r.0.status r.0.new_fd xs (opened r.1)

  create_in-Opens : (f : ℕ) (t : Trace) → OpensBy (opened t) (create_in os f t)
  unfolding create_in call
  create_in-Opens f t = by_answer (os.answer t (open_socket f))
    where
      by_answer : (a : ℤ) → Makes (if_valid f a) a (opened t) (change (open_socket f) a (opened t))
      by_answer (pos n) = (n, refl, refl)
      by_answer (negsuc n) = (n, refl, refl)

  -- The socket at hand is the one that was opened last.
  create_other-Opens :
      (addr : ResolvedAddress) (n : ℕ) (xs : List ℕ) (t : Trace)
      → opened t ≡ n ∷ xs
      → OpensBy xs (create_other os addr (pos n) t)
  unfolding create_other close_if_valid call
  create_other-Opens addr n xs t e = elim (Bool-cases (is_some (sockaddr_is_v4mapped addr))) [
    | inl mapped ↦ rw mapped (
        subst (λ (ys : List ℕ). OpensBy ys (create_in os af_inet (close_if_valid os (pos n) t)))
          (ap (without n) e ∙ without_head n xs)
          (create_in-Opens af_inet (close_if_valid os (pos n) t)))
    | inr plain ↦ rw plain (n, refl, e)
  ]

  create_failed-Opens :
      (addr : ResolvedAddress) (n : ℕ) (t : Trace)
      → OpensBy (opened t) (create_other os addr (negsuc n) t)
  unfolding create_other close_if_valid
  create_failed-Opens addr n t = elim (Bool-cases (is_some (sockaddr_is_v4mapped addr))) [
    | inl mapped ↦ rw mapped (create_in-Opens af_inet t)
    | inr plain ↦ rw plain (n, refl, refl)
  ]

  create_v6_with-Opens :
      (addr : ResolvedAddress) (n : ℕ) (xs : List ℕ) (o : Outcome)
      → opened o.1 ≡ n ∷ xs
      → OpensBy xs (create_v6_with os addr n o)
  unfolding create_v6_with
  create_v6_with-Opens addr n xs (none, t) e = (n, refl, e)
  create_v6_with-Opens addr n xs (some f, t) e = create_other-Opens addr n xs t e

  create_v6-Opens :
      (addr : ResolvedAddress) (a : ℤ) (t : Trace)
      → OpensBy (opened t) (create_v6 os addr (a, (open_socket af_inet6, a) ∷ t))
  unfolding create_v6
  create_v6-Opens addr (pos n) t =
      create_v6_with-Opens addr n (opened t) _
        ((set_socket_ipv6_only-Quiet os n false).keeps ((open_socket af_inet6, pos n) ∷ t))
  create_v6-Opens addr (negsuc n) t =
      create_failed-Opens addr n ((open_socket af_inet6, negsuc n) ∷ t)

  pub create_dualstack_socket-Opens :
      (addr : ResolvedAddress) (t : Trace) → OpensBy (opened t) (create_dualstack_socket os addr t)
  unfolding create_dualstack_socket call
  create_dualstack_socket-Opens addr t = elim (Bool-cases (sockaddr_get_family addr == af_inet6)) [
    | inl six ↦ rw six (create_v6-Opens addr (os.answer t (open_socket af_inet6)) t)
    | inr four ↦ rw four (create_in-Opens (sockaddr_get_family addr) t)
  ]
