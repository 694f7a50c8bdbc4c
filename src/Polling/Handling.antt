-- ===== src/Polling/Handling.antt =====
-- An event of a poll, in a container whose connections can take it.
use raptor_lite.Common.{
  ℕ, ◌+◌, ◌<◌, ◌≤◌, ◌^◌, ◌≡◌, refl, sym, ap, ◌∙◌, subst, Bool, true, false, Option, none, some,
  List, [], ◌∷◌, length, length-append, arith, ◌==◌, if◌then◌else◌, inl, inr, Bool-cases, eq_of_==,
  get_elem?,
}
use raptor_lite.Common.Int.{ℤ}
use raptor_lite.Cid.{get_user_id}
use raptor_lite.SliceBuffer.{SliceBuffer}
use raptor_lite.SliceBuffer.Contents.{contents, IsBuffer}
use raptor_lite.Protocol.Refine.{DecidesEarly}
use raptor_lite.Connection.{
  Connection, Effect, Event, Recv, Sent, socket_error, do_recv_event, do_send_event,
}
use raptor_lite.Connection.Receiving.{Reads, taken}
use raptor_lite.Connection.Sending.{Honest}
use raptor_lite.Container.{Container, Slot, get_connection, connection_of}
use raptor_lite.Container.Table.{Inv}
use raptor_lite.Container.Serving.{shut_down-Ended}
use raptor_lite.Container.Events.{holder_of_connection, on_send_event-SendHandled}
use raptor_lite.Container.Arrivals.{on_recv_event-RecvHandled}
use raptor_lite.Container.Calls.{
  EventDetail, process_checked, on_error_event, on_recv_event, on_send_event, shut_down_slot,
  event_at, event_on,
}
use raptor_lite.Polling.{PollEvent}

-- A connection with well-formed buffers, with a handler that decides early, and with room for `n` bytes
-- more.
pub record Ready (n : ℕ) (con : Connection) : Type 0 where
  pub sending : IsBuffer con.snd_buffer
  pub receiving : IsBuffer con.rcv_buffer
  pub room : length (contents con.rcv_buffer) + n < 2 ^ 64
  pub check : List ℕ → ℤ
  pub early : DecidesEarly check
  pub handler : con.proto ≡ some check

-- What is at an index of a table with at least `k` slots.
abbrev pub Holds : (k n i : ℕ) → Option (Option Connection) → Type 0
Holds k n i none = k ≤ i
Holds k n i (some none) = Unit {0}
Holds k n i (some (some con)) = Ready n con

pub record Healthy (k n : ℕ) (c : Container) : Type 0 where
  pub kept : Inv c
  pub slots : (i : ℕ) → Holds k n i (get_connection c i)

-- The run returns, and leaves a healthy container.
abbrev pub Runs : (k n : ℕ) → Option Container → Type 0
Runs k n none = ⊥
Runs k n (some c) = Healthy k n c

-- An event for an id with an index below `k`, with reads that come to an end and an honest socket.
pub record IsEvent (k : ℕ) (ev : PollEvent) : Type 0 where
  pub known : get_user_id ev.ptr < k
  pub reads : Reads ev.arriving
  pub honest : Honest ev.leaving

abbrev pub AreEvents : ℕ → List PollEvent → Type 0
AreEvents k [] = Unit {0}
AreEvents k (ev ∷ evs) = IsEvent k ev × AreEvents k evs

-- The number of bytes that the events have to be read.
abbrev pub arrivals : List PollEvent → ℕ
arrivals [] = 0
arrivals (ev ∷ evs) = length (taken ev.arriving) + arrivals evs

Holds-less : (k m n i : ℕ) (o : Option (Option Connection)) → n ≤ m → Holds k m i o → Holds k n i o
Holds-less k m n i none le h = h
Holds-less k m n i (some none) le h = h
Holds-less k m n i (some (some con)) le h = record {
  sending = h.sending;
  receiving = h.receiving;
  room = omega (arith, le, h.room);
  check = h.check;
  early = h.early;
  handler = h.handler;
}

pub Healthy-less : (k m n : ℕ) (c : Container) → n ≤ m → Healthy k m c → Healthy k n c
Healthy-less k m n c le h = record {
  kept = h.kept;
  slots = λ i. Holds-less k m n i (get_connection c i) le (h.slots i);
}

-- A change at one index.
pub Healthy-at :
    (k m n i : ℕ) (c d : Container)
    → n ≤ m
    → Healthy k m c
    → Inv d
    → ((j : ℕ) → (j == i) ≡ false → get_connection d j ≡ get_connection c j)
    → Holds k n i (get_connection d i)
    → Healthy k n d
Healthy-at k m n i c d le h v others here = record {
  kept = v;
  slots = λ j. elim (Bool-cases (j == i)) [
    | inl e ↦ subst (λ (x : ℕ). Holds k n x (get_connection d x)) (sym (eq_of_== j i e)) here
    | inr ne ↦
        subst (Holds k n j) (sym (others j ne))
          (Holds-less k m n j (get_connection c j) le (h.slots j))
  ];
}

shut_down_slot-Runs :
    (k n i : ℕ) (c : Container) (notify : Bool) (ev : Event) (o : Option (Option Connection))
    → i < k
    → Healthy k n c
    → get_connection c i ≡ o
    → Runs k n (shut_down_slot c i notify ev o)
unfolding shut_down_slot
shut_down_slot-Runs k n i c notify ev none lt h at =
    let beyond : k ≤ i = subst (Holds k n i) at (h.slots i) in absurd (omega (arith, lt, beyond))
shut_down_slot-Runs k n i c notify ev (some none) lt h at = h
shut_down_slot-Runs k n i c notify ev (some (some con)) lt h at =
    let d = shut_down-Ended c i con notify ev h.kept at in
    subst (Runs k n) (sym d.shuts) (
      Healthy-at k n n i c d.result (omega arith) h d.kept d.slots
        (subst (Holds k n i) (sym d.vacated) tt))

event_at-vacant :
    (c : Container) (i errno now : ℕ)
    (handler : Connection → Option (Connection × List Effect × Bool))
    → (o : Option Slot) → connection_of o ≡ some none
    → event_at c i errno now handler o ≡ some c
unfolding event_at event_on
event_at-vacant c i errno now handler none h = cc
event_at-vacant c i errno now handler (some s) h =
    let empty : s.first ≡ none = grind (arith, h) in ap (event_on c i errno now handler s) empty

pub Runs-if :
    (k n : ℕ) (b : Bool) (x y : Option Container)
    → Runs k n x
    → Runs k n y
    → Runs k n (if b then x else y)
Runs-if k n true x y v w = v
Runs-if k n false x y v w = w

module _ (k m n i errno now : ℕ) (c : Container) (lt : i < k) (h : Healthy k m c) where
  -- What an event of a connection leaves, if it leaves what the slot of the connection should hold.
  at_slot :
      (handler : Connection → Option (Connection × List Effect × Bool))
      → n ≤ m
      → ((con : Connection)
          → get_connection c i ≡ some (some con)
          → Runs k n (event_at c i errno now handler (get_elem? c.mgr i)))
      → Runs k n (event_at c i errno now handler (get_elem? c.mgr i))
  at_slot handler le full = by_slot (get_connection c i) refl
    where
      by_slot :
          (o : Option (Option Connection))
          → get_connection c i ≡ o
          → Runs k n (event_at c i errno now handler (get_elem? c.mgr i))
      by_slot none at =
          let beyond : k ≤ i = subst (Holds k m i) at (h.slots i) in
          absurd (omega (arith, lt, beyond))
      by_slot (some none) at =
          subst (Runs k n) (sym (event_at-vacant c i errno now handler (get_elem? c.mgr i) at))
            (Healthy-less k m n c le h)
      by_slot (some (some con)) at = full con at

  ready : (con : Connection) → get_connection c i ≡ some (some con) → Ready m con
  ready con at = subst (Holds k m i) at (h.slots i)

  on_send_event-Runs :
      (socket : ℕ → List ℕ → Sent)
      → Honest socket
      → n ≤ m
      → Runs k n (on_send_event c i errno now socket)
  unfolding on_send_event
  on_send_event-Runs socket honest le =
      at_slot (λ con. do_send_event con socket) le
        (λ con at.
          let r = ready con at in
          let d =
            on_send_event-SendHandled c i errno now socket con h.kept
              (holder_of_connection (get_elem? c.mgr i) con at) honest r.sending in
          subst (Runs k n) (sym d.handles) (
            Healthy-at k m n i c d.result le h d.kept d.others (
              subst (Holds k n i) (sym d.still_here) (record {
                sending = d.buffered;
                receiving =
                    subst (λ (b : SliceBuffer). IsBuffer b) (sym d.same_received) r.receiving;
                room = omega (
                  arith,
                  le,
                  r.room,
                  ap (λ (b : SliceBuffer). length (contents b)) d.same_received,
                );
                check = r.check;
                early = r.early;
                handler = d.same_proto ∙ r.handler;
              }))))

  on_recv_event-Runs :
      (socket : List Recv)
      → Reads socket
      → length (taken socket) + n ≤ m
      → Runs k n (on_recv_event c i errno now socket)
  unfolding on_recv_event
  on_recv_event-Runs socket reads le =
      at_slot (λ con. do_recv_event con socket) (omega (arith, le))
        (λ con at.
          let r = ready con at in
          let total = length-append (contents con.rcv_buffer) (taken socket) in
          let d =
            on_recv_event-RecvHandled c i errno now socket con r.check h.kept
              (holder_of_connection (get_elem? c.mgr i) con at) r.early r.handler reads r.receiving
              (omega (arith, r.room, le)) in
          subst (Runs k n) (sym d.handles) (
            Healthy-at k m n i c d.result (omega (arith, le)) h d.kept d.others (
              subst (Holds k n i) (sym d.slot) (
                left_in d.ok d.left (record {
                  sending = subst (λ (b : SliceBuffer). IsBuffer b) (sym d.same_sent) r.sending;
                  receiving = d.buffered;
                  room = omega (arith, le, r.room, d.within, total);
                  check = r.check;
                  early = r.early;
                  handler = d.same_proto ∙ r.handler;
                })))))
    where
      left_in :
          (ok : Bool) (con : Connection)
          → Ready n con
          → Holds k n i (some (if ok then some con else none))
      left_in true con w = w
      left_in false con w = tt

  pub process_checked-Runs :
      (detail : EventDetail) (arriving : List Recv) (leaving : ℕ → List ℕ → Sent)
      → Reads arriving
      → Honest leaving
      → length (taken arriving) + n ≤ m
      → Runs k n (process_checked c detail errno now arriving leaving (some i))
  unfolding on_error_event
  process_checked-Runs detail arriving leaving reads honest le =
      let less : n ≤ m = omega (arith, le) in
      let w = Healthy-less k m n c less h in
      let failed =
        shut_down_slot-Runs k n i c true (socket_error detail.error_code) (get_connection c i) lt w
          refl in
      let received = on_recv_event-Runs arriving reads le in
      let left = on_send_event-Runs leaving honest less in
      Runs-if k n detail.error_event _ _ failed
        (Runs-if k n detail.recv_event _ _ received (Runs-if k n detail.send_event _ _ left w))
