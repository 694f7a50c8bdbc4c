-- ===== src/WinConnector/Owned.antt =====
-- As long as `ConnectEx` does not fail at once: a Windows connector reads no record that is deleted, and
-- every socket that it opens is in a record, known to the application, or closed.
use raptor_lite.Common.{
  ℕ, ◌+◌, ◌≤◌, ◌≡◌, refl, sym, ap, ◌∙◌, subst, Bool, true, false, Option, none, some, List, [], ◌∷◌,
  one, times, one_self, arith, if◌then◌else◌,
}
use raptor_lite.Property.{Property}
use raptor_lite.Sockets.{Os, Trace, close_fd, poll_remove, call}
use raptor_lite.Sockets.Counted.{times-without}
use raptor_lite.Sockets.Opened.{without, opened}
use raptor_lite.Connector.{Notice}
use raptor_lite.WinConnector.{
  Entry, Heap, WinConnector, erase, close_records, when_closed, shutdown_connector, connect, forget,
  completion_of, on_connect_event,
}
use raptor_lite.WinConnector.Records.{
  fds_of, Live, World, world, Owns, Move, connects, completes, shuts, told_of, after_event,
  after_shutdown, Allows, InResult, fds_store, Live-store, times_cons, found, erase-Erased,
}
use raptor_lite.WinConnector.Attempts.{process_property-keeps, connects-Owns}

module _ (os : Os) (ntohs htons : ℕ → ℕ) where
  unfoldable pub move : World → Move → Option World
  move w (connects pending resolved id user) =
      let r = connect os ntohs htons pending resolved id user w.con w.trace in
      some (world r.0.0 r.1 w.handed)
  move w (completes is_error online id p) =
      after_event w (on_connect_event os is_error online id p w.con w.trace)
  move w shuts = after_shutdown w (shutdown_connector os w.con w.trace)

  closed_one :
      (n fd : ℕ) (xs : List ℕ) (k : ℕ)
      → times n xs ≡ one n fd + k
      → 1 ≤ times fd xs
      → times n (without fd xs) ≡ k
  closed_one n fd xs k a b = omega (arith, a, times-without n fd xs b)

  -- All sockets of the records are closed, and no record is missing.
  abbrev Closes : List ℕ → Option Trace → Type 0
  Closes others none = ⊥
  Closes others (some t) = (n : ℕ) → times n (opened t) ≡ times n others

  close_records-Closes :
      (h : Heap) (ids : List ℕ) (t : Trace) (others : List ℕ)
      → Live h ids
      → ((n : ℕ) → times n (opened t) ≡ times n (fds_of h ids) + times n others)
      → Closes others (close_records os h ids t)
  unfolding close_records call
  close_records-Closes h [] t others l o = λ n. omega (arith, o n)
  close_records-Closes h (id ∷ ids) t others ((e, at), l) o =
      let here : (n : ℕ)
          → times n (opened t) ≡ one n e.fd + times n (fds_of h ids) + times n others =
        λ n. omega (arith, o n, times_cons n (h id) e (fds_of h ids) at) in
      subst
        (λ (v : Option Entry). Closes others (elim v as (λ _. Option Trace) [
          | none ↦ none
          | some f ↦
              close_records os h ids (call os (poll_remove f.fd) (call os (close_fd f.fd) t).1).1
        ]))
        (sym at)
        (close_records-Closes h ids _ others l (λ n.
          closed_one n e.fd (opened t) (times n (fds_of h ids) + times n others)
            (omega (arith, here n)) (omega (arith, here e.fd, one_self e.fd))))

  forget-Owns :
      (id : ℕ) (e : Entry) (w : World) (t : Trace) (handed : List ℕ)
      → Owns w
      → w.con.heap id ≡ some e
      → 1 ≤ times id w.con.records
      → opened t ≡ opened w.trace
      → ((n : ℕ) → times n handed ≡ one n e.fd + times n w.handed)
      → Owns (world (forget os id w.con) t handed)
  unfolding forget
  forget-Owns id e w t handed v at k o g =
      let r = erase-Erased w.con.heap id w.con.records e at k v.live in
      let rest = (erase id w.con.records).0 in
      let gone : times id rest ≡ 0 = omega (arith, r.fewer id, v.apart id, one_self id) in
      rw r.there (record {
        live = Live-store w.con.heap id none rest gone r.still;
        apart = λ n. omega (arith, v.apart n, r.fewer n);
        owned = λ n.
            ap (times n) o
            ∙ omega (
              arith,
              v.owned n,
              r.sockets n,
              g n,
              ap (times n) (fds_store w.con.heap id none rest gone),
            );
      })

  completion-Owns :
      (is_error online : Bool) (id : ℕ) (p : Property) (w : World) (e : Entry)
      → Owns w
      → w.con.heap id ≡ some e
      → 1 ≤ times id w.con.records
      → let q = completion_of os is_error online id p w.con w.trace e in
        Owns (world q.0.0 q.1 (told_of q.0.1 w.handed))
  unfolding completion_of call
  completion-Owns true online id p w e v at k = forget-Owns id e w _ _ v at k refl (λ n. refl)
  completion-Owns false true id p w e v at k =
      forget-Owns id e w _ _ v at k (process_property-keeps os e.fd p _) (λ n. refl)
  completion-Owns false false id p w e v at k = forget-Owns id e w _ _ v at k refl (λ n. refl)

  -- `Shutdown` runs, and leaves open what others have.
  abbrev pub Ends : World → Option World → Type 0
  Ends w none = ⊥
  Ends w (some w') =
      Owns w' × (w.con.is_shut ≡ false → (n : ℕ) → times n (opened w'.trace) ≡ times n w.handed)

  when_closed-Ends :
      (w : World) (o : Option Trace)
      → Owns w
      → Closes w.handed o
      → Ends w (after_shutdown w (when_closed os w.con o))
  when_closed-Ends w none v c = absurd c
  when_closed-Ends w (some t) v c =
      (record { live = tt; apart = λ n. omega arith; owned = λ n. omega (arith, c n) }, λ e n. c n)

  shuts-Ends : (w : World) → Owns w → Ends w (move w shuts)
  unfolding move shutdown_connector
  shuts-Ends w v = by_shut w.con.is_shut refl
    where
      by_shut :
          (b : Bool)
          → w.con.is_shut ≡ b
          → Ends w (
              after_shutdown w (
                if b
                then some (w.con, w.trace)
                else when_closed os w.con (close_records os w.con.heap w.con.records w.trace)))
      by_shut true e = (v, λ ne. let clash : true ≡ false = sym e ∙ ne in cc clash)
      by_shut false ne =
          when_closed-Ends w (close_records os w.con.heap w.con.records w.trace) v
            (close_records-Closes w.con.heap w.con.records w.trace w.handed v.live v.owned)

  -- A move that is allowed reads no record that is deleted.
  abbrev Keeps : Option World → Type 0
  Keeps none = ⊥
  Keeps (some w) = Owns w

  completes-Keeps :
      (w : World) (is_error online : Bool) (id : ℕ) (p : Property)
      → Owns w
      → 1 ≤ times id w.con.records
      → Keeps (move w (completes is_error online id p))
  unfolding move on_connect_event
  completes-Keeps w is_error online id p v k =
      let (e, at) = found w.con.heap id w.con.records v.live k in
      subst
        (λ (o : Option Entry). Keeps (
          after_event w (elim o as (λ _. Option ((WinConnector × List Notice) × Trace)) [
            | none ↦ none
            | some f ↦ some (completion_of os is_error online id p w.con w.trace f)
          ])))
        (sym at) (completion-Owns is_error online id p w e v at k)

  move-Keeps : (w : World) (m : Move) → Owns w → Allows w m → Keeps (move w m)
  unfolding move
  move-Keeps w (connects pending resolved id user) v (allowed, f) =
      subst (λ (b : Bool). Keeps (move w (connects b resolved id user))) (sym allowed)
        (connects-Owns os ntohs htons w resolved id user v f)
  move-Keeps w (completes is_error online id p) v k = completes-Keeps w is_error online id p v k
  move-Keeps w shuts v a = by_end (move w shuts) (shuts-Ends w v)
    where
      by_end : (o : Option World) → Ends w o → Keeps o
      by_end none h = absurd h
      by_end (some w') h = h.0

  abbrev pub continue : (World → Option World) → Option World → Option World
  continue f none = none
  continue f (some w) = f w

  abbrev pub moves : List Move → World → Option World
  moves [] w = some w
  moves (m ∷ ms) w = continue (moves ms) (move w m)

  -- Every move is allowed in the state in which it is made.
  abbrev pub AllowsAll : List Move → World → Type 0
  AllowsAll [] w = Unit {0}
  AllowsAll (m ∷ ms) w = Allows w m × InResult (AllowsAll ms) (move w m)

  abbrev pub EndsOwned : Option World → Type 0
  EndsOwned none = ⊥
  EndsOwned (some w) = Owns w × Ends w (move w shuts)

  continued :
      (ms : List Move) (o : Option World)
      → ((w : World) → Owns w → AllowsAll ms w → EndsOwned (moves ms w))
      → Keeps o
      → InResult (AllowsAll ms) o
      → EndsOwned (continue (moves ms) o)
  continued ms none rest k b = absurd k
  continued ms (some w) rest k b = rest w k b

  -- For a connector on Windows, where new records are not at addresses in use, `ConnectEx` fails only with
  -- ERROR_IO_PENDING, and completions are those of connections in the set of records: whatever is asked of
  -- it, in any order and whichever other calls fail, no deleted record is read; every socket that is open
  -- is in a record, or is one that others had or that the application was told of, just once; and a
  -- `Shutdown` of a connector that runs returns and leaves none of its own sockets open.
  pub moves-EndsOwned :
      (ms : List Move) (w : World) → Owns w → AllowsAll ms w → EndsOwned (moves ms w)
  moves-EndsOwned [] w v a = (v, shuts-Ends w v)
  moves-EndsOwned (m ∷ ms) w v (a, b) =
      continued ms (move w m) (moves-EndsOwned ms) (move-Keeps w m v a) b
