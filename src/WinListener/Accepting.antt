-- ===== src/WinListener/Accepting.antt =====
-- The accepts that a Windows listener posts: the ring of their objects and the sockets of these.
use raptor_lite.Common.{
  ℕ, ◌+◌, ◌≤◌, ◌≡◌, refl, sym, ap, ◌∙◌, subst, Bool, Option, none, some, List, [], ◌∷◌, ◌++◌,
  ==_self, inl, inr, Bool-cases, append_assoc, append-nil, one, times, one_self, one_apart,
  times-append, arith,
}
use raptor_lite.Common.Int.{ℤ, pos, negsuc}
use raptor_lite.Address.{ResolvedAddress, sockaddr_get_family}
use raptor_lite.ListEntry.{list_push_back}
use raptor_lite.ListEntry.Ring.{IsRing, push_back-IsRing}
use raptor_lite.ListEntry.Refine.{remove-Does}
use raptor_lite.Sockets.{Os, Trace, Outcome, Fault, open_socket, accept_ex, call}
use raptor_lite.Sockets.Opened.{without, opened}
use raptor_lite.WinSockets.Opened.{without_head, prepare-Quiet}
use raptor_lite.WinListener.{
  AcceptObject, invalid_socket, Objects, store, WinListener, close_socket, after_accept_ex,
  accept_prepared, accept_opened, start_accept_ex, accept_posted, post_accept, unless_failed,
  post_accepts,
}

-- Without an error one socket has been opened, which the object has; with one none is left open, and the
-- object has none.
abbrev pub Posts : List ℕ → (ℤ × Option Fault) × Trace → Type 0
Posts xs ((socket, none), t) = (fd : ℕ) × (socket ≡ pos fd) × (opened t ≡ fd ∷ xs)
Posts xs ((socket, some e), t) = (socket ≡ invalid_socket) × (opened t ≡ xs)

module _ (os : Os) (pending : Trace → Bool) where
  after_accept_ex-Posts :
      (listen_fd fd : ℕ) (a : ℤ) (xs : List ℕ) (t : Trace)
      → opened t ≡ fd ∷ xs
      → Posts xs (after_accept_ex os pending listen_fd fd (a, t))
  unfolding after_accept_ex call
  after_accept_ex-Posts listen_fd fd (pos n) xs t e = (fd, refl, e)
  after_accept_ex-Posts listen_fd fd (negsuc n) xs t e = elim (Bool-cases (pending t)) [
    | inl p ↦ rw p (fd, refl, e)
    | inr f ↦ rw f (refl, ap (without fd) e ∙ without_head fd xs)
  ]

  accept_prepared-Posts :
      (listen_fd fd : ℕ) (xs : List ℕ) (o : Outcome)
      → opened o.1 ≡ fd ∷ xs
      → Posts xs (accept_prepared os pending listen_fd fd o)
  unfolding accept_prepared call
  accept_prepared-Posts listen_fd fd xs (none, t) e =
      after_accept_ex-Posts listen_fd fd (os.answer t (accept_ex listen_fd fd)) xs
        ((accept_ex listen_fd fd, os.answer t (accept_ex listen_fd fd)) ∷ t) e
  accept_prepared-Posts listen_fd fd xs (some f, t) e =
      (refl, ap (without fd) e ∙ without_head fd xs)

  accept_opened-Posts :
      (listen_fd family : ℕ) (a : ℤ) (t : Trace)
      → Posts
          (opened t)
          (accept_opened os pending listen_fd family (a, (open_socket family, a) ∷ t))
  unfolding accept_opened
  accept_opened-Posts listen_fd family (pos fd) t =
      accept_prepared-Posts listen_fd fd (opened t) _
        ((prepare-Quiet os fd (pos 0)).keeps ((open_socket family, pos fd) ∷ t))
  accept_opened-Posts listen_fd family (negsuc n) t = (refl, refl)

  -- `StartAcceptEx` without an error leaves one socket more open, the one of the object; with an error, at
  -- whichever call, it leaves none open and the object without one.
  pub start_accept_ex-Posts :
      (listen_fd : ℕ) (addr : ResolvedAddress) (t : Trace)
      → Posts (opened t) (start_accept_ex os pending listen_fd addr t)
  unfolding start_accept_ex call
  start_accept_ex-Posts listen_fd addr t =
      accept_opened-Posts listen_fd (sockaddr_get_family addr)
        (os.answer t (open_socket (sockaddr_get_family addr))) t

-- The objects of the entries, each with its socket.
abbrev pub HaveSockets : Objects → List ℕ → List ℕ → Type 0
HaveSockets os [] [] = Unit {0}
HaveSockets os [] (fd ∷ fds) = ⊥
HaveSockets os (a ∷ as') [] = ⊥
HaveSockets os (a ∷ as') (fd ∷ fds) =
    ((o : AcceptObject) × (os a ≡ some o) × (o.new_socket ≡ pos fd)) × HaveSockets os as' fds

-- What the loop of `AddListeningPort` makes of a ring of the entries `old`.
pub record Posted (head : ℕ) (old nodes : List ℕ) (s : WinListener) (t : Trace)
    (r : (WinListener × Option Fault) × Trace) : Type 0 where
  pub added : List ℕ
  pub sockets : List ℕ
  pub ring : IsRing r.0.0.links head (old ++ added)
  pub have : HaveSockets r.0.0.objects added sockets
  pub open_ones : (n : ℕ) → times n (opened r.1) ≡ times n sockets + times n (opened t)
  pub all_of_them : r.0.1 ≡ none → added ≡ nodes
  pub others : (a : ℕ) → times a nodes ≡ 0 → r.0.0.objects a ≡ s.objects a
  pub same_heads : r.0.0.heads ≡ s.heads
  pub same_state : r.0.0.is_shut ≡ s.is_shut

store_other :
    (objects : Objects) (node a : ℕ) (v : Option AcceptObject)
    → one a node ≡ 0
    → (store objects node v) a ≡ objects a
store_other objects node a v h = rw (one_apart a node h) refl

module _ (os : Os) (pending : Trace → Bool) (head listen_fd : ℕ) (o : AcceptObject)
    (addr : ResolvedAddress) where
  -- The object of a failed accept is out of the ring again.
  failed-Posted :
      (node : ℕ) (old nodes : List ℕ) (socket : ℤ) (e : Fault) (s : WinListener) (t u : Trace)
      → times node (head ∷ old) ≡ 0
      → IsRing s.links head old
      → socket ≡ invalid_socket
      → opened u ≡ opened t
      → Posted head old (node ∷ nodes) s t (
          accept_posted os node o
            (record s { links = list_push_back s.links head node })
            ((socket, some e), u))
  unfolding accept_posted close_socket
  failed-Posted node old nodes socket e s t u new r inv same = record {
    added = [];
    sockets = [];
    ring =
        (remove-Does (list_push_back s.links head node) head old node []
          (push_back-IsRing s.links head node old new r)).1;
    have = tt;
    open_ones = λ n. rw inv (ap (times n) same ∙ omega arith);
    all_of_them = λ f. cc;
    others = λ a h. store_other s.objects node a none (omega (arith, h));
    same_heads = refl;
    same_state = refl;
  }

  -- A posted accept, and what the rest of the loop makes of it.
  one_more-Posted :
      (node fd : ℕ) (old nodes : List ℕ) (s : WinListener) (t u : Trace)
      (r : (WinListener × Option Fault) × Trace)
      → times node nodes ≡ 0
      → opened u ≡ fd ∷ opened t
      → Posted head
          (old ++ node ∷ [])
          nodes
          (record s {
            links = list_push_back s.links head node;
            objects = store s.objects node (some (record o { new_socket = pos fd }));
          })
          u
          r
      → Posted head old (node ∷ nodes) s t r
  one_more-Posted node fd old nodes s t u r new same p =
      let kept : r.0.0.objects node ≡ some (record o { new_socket = pos fd }) =
        p.others node new ∙ self in
      record {
        added = node ∷ p.added;
        sockets = fd ∷ p.sockets;
        ring = subst (IsRing r.0.0.links head) (append_assoc old (node ∷ []) p.added) p.ring;
        have = ((record o { new_socket = pos fd }, kept, refl), p.have);
        open_ones = λ n. p.open_ones n ∙ omega (arith, ap (times n) same);
        all_of_them = λ e. ap (λ (ns : List ℕ). node ∷ ns) (p.all_of_them e);
        others = λ a h.
            p.others a (omega (arith, h))
            ∙ store_other s.objects node a (some (record o { new_socket = pos fd }))
                (omega (arith, h));
        same_heads = p.same_heads;
        same_state = p.same_state;
      }
    where
      self :
          (store s.objects node (some (record o { new_socket = pos fd }))) node
          ≡ some (record o { new_socket = pos fd })
      self = rw (==_self node) refl

  step-Posted :
      (node : ℕ) (old nodes : List ℕ) (s : WinListener) (t : Trace)
      (f : WinListener → Trace → (WinListener × Option Fault) × Trace)
      (q : (ℤ × Option Fault) × Trace)
      → times node (head ∷ old) ≡ 0
      → times node nodes ≡ 0
      → IsRing s.links head old
      → Posts (opened t) q
      → ((s' : WinListener) (u : Trace)
          → IsRing s'.links head (old ++ node ∷ [])
          → Posted head (old ++ node ∷ []) nodes s' u (f s' u))
      → Posted head old (node ∷ nodes) s t (
          unless_failed os f
            (accept_posted os node o (record s { links = list_push_back s.links head node }) q))
  unfolding accept_posted
  step-Posted node old nodes s t f ((socket, some e), u) new fresh r (inv, same) rest =
      failed-Posted node old nodes socket e s t u new r inv same
  step-Posted node old nodes s t f ((socket, none), u) new fresh r (fd, eq, same) rest =
      subst
        (λ (a : ℤ). Posted head old (node ∷ nodes) s t (
          f
            (record s {
              links = list_push_back s.links head node;
              objects = store s.objects node (some (record o { new_socket = a }));
            })
            u))
        (sym eq)
        (one_more-Posted node fd old nodes s t u _ fresh same
          (rest _ u (push_back-IsRing s.links head node old new r)))

  -- The loop of `AddListeningPort` on a ring, for new objects at addresses that are no two the same and not
  -- in the ring: what it adds are the objects in order, all of them if there is no error; each has a
  -- socket of its own, and these are the sockets that it leaves open.
  pub post_accepts-Posted :
      (old nodes : List ℕ) (s : WinListener) (t : Trace)
      → ((n : ℕ) → times n (head ∷ old) + times n nodes ≤ 1)
      → IsRing s.links head old
      → Posted head old nodes s t (post_accepts os pending nodes head listen_fd o addr s t)
  unfolding post_accepts post_accept
  post_accepts-Posted old [] s t h r = record {
    added = [];
    sockets = [];
    ring = rw (append-nil old) r;
    have = tt;
    open_ones = λ n. omega arith;
    all_of_them = λ e. refl;
    others = λ a k. refl;
    same_heads = refl;
    same_state = refl;
  }
  post_accepts-Posted old (node ∷ nodes) s t h r =
      step-Posted node old nodes s t (post_accepts os pending nodes head listen_fd o addr)
        (start_accept_ex os pending listen_fd addr t) (omega (arith, h node, one_self node))
        (omega (arith, h node, one_self node)) r (start_accept_ex-Posts os pending listen_fd addr t)
        (λ s' u r'.
          post_accepts-Posted (old ++ node ∷ []) nodes s' u
            (λ n. omega (arith, h n, times-append n old (node ∷ []))) r')
