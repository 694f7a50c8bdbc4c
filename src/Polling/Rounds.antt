-- ===== src/Polling/Rounds.antt =====
-- A round of a polling thread: the timeout check, then the events of a poll.
use raptor_lite.Common.{
  ℕ, ◌+◌, ◌≤◌, ◌≡◌, refl, sym, ap, ◌∙◌, subst, Bool, true, false, ◌||◌, Option, none, some, List,
  [], ◌∷◌, length, arith, ltb, if◌then◌else◌, inl, inr, Bool-cases,
}
use raptor_lite.Cid.{get_user_id}
use raptor_lite.Connection.{Connection, connection_timeout}
use raptor_lite.Connection.Receiving.{taken}
use raptor_lite.Container.{Container, get_connection, check_connection_id}
use raptor_lite.Container.Timeouts.{Deadline}
use raptor_lite.Container.Admission.{check_connection_id-user}
use raptor_lite.Container.Serving.{shut_down-Ended}
use raptor_lite.Container.Expiry.{set_check_Inv, on_timeout_check-Checked}
use raptor_lite.Container.Calls.{
  and_then, on_event_process, process_checked, on_timeout_check, expire, expire_one,
}
use raptor_lite.Polling.{PollEvent, decode, process_events, do_work}
use raptor_lite.Polling.Handling.{
  Holds, Healthy, Runs, IsEvent, AreEvents, arrivals, Healthy-less, Healthy-at, Runs-if,
  process_checked-Runs,
}

-- The container is healthy if the run returns.
abbrev Partly : (k n : ℕ) → Option Container → Type 0
Partly k n none = Unit {0}
Partly k n (some c) = Healthy k n c

decode-connection_id : (ev : PollEvent) → (decode ev).connection_id ≡ ev.ptr
unfolding decode
decode-connection_id ev = elim (Bool-cases (ev.err || (ev.hup || ev.rdhup))) [
  | inl e ↦ rw e refl
  | inr ne ↦ rw ne refl
]

event-Runs :
    (k m n now : ℕ) (c : Container) (ev : PollEvent)
    → Healthy k m c
    → IsEvent k ev
    → length (taken ev.arriving) + n ≤ m
    → Runs k n (on_event_process c (decode ev) ev.errno now ev.arriving ev.leaving)
unfolding on_event_process
event-Runs k m n now c ev h g le = by_index (check_connection_id c (decode ev).connection_id) refl
  where
    by_index :
        (o : Option ℕ)
        → check_connection_id c (decode ev).connection_id ≡ o
        → Runs k n (process_checked c (decode ev) ev.errno now ev.arriving ev.leaving o)
    by_index none e = Healthy-less k m n c (omega (arith, le)) h
    by_index (some i) e =
        let at : get_user_id ev.ptr ≡ i =
          ap get_user_id (sym (decode-connection_id ev))
          ∙ check_connection_id-user c (decode ev).connection_id i e in
        process_checked-Runs k m n i ev.errno now c (omega (arith, at, g.known)) h (decode ev)
          ev.arriving ev.leaving g.reads g.honest le

and_then-Runs :
    (k m n : ℕ) (f : Container → Option Container) (o : Option Container)
    → ((c : Container) → Healthy k m c → Runs k n (f c))
    → Runs k m o
    → Runs k n (and_then f o)
unfolding and_then
and_then-Runs k m n f none rest h = absurd h
and_then-Runs k m n f (some c) rest h = rest c h

process_events-Runs :
    (k n now : ℕ) (evs : List PollEvent) (c : Container)
    → AreEvents k evs
    → Healthy k (arrivals evs + n) c
    → Runs k n (process_events now evs c)
unfolding process_events
process_events-Runs k n now [] c g h = Healthy-less k (0 + n) n c (omega arith) h
process_events-Runs k n now (ev ∷ evs) c (g, gs) h =
    and_then-Runs k (arrivals evs + n) n (process_events now evs)
      (on_event_process c (decode ev) ev.errno now ev.arriving ev.leaving)
      (λ d w. process_events-Runs k n now evs d gs w)
      (event-Runs k (arrivals (ev ∷ evs) + n) (arrivals evs + n) now c ev h g (omega arith))

expire_one-Partly :
    (k n i : ℕ) (c : Container) (o : Option (Option Connection))
    → Healthy k n c
    → get_connection c i ≡ o
    → Partly k n (expire_one c i o)
unfolding expire_one
expire_one-Partly k n i c none h at = tt
expire_one-Partly k n i c (some none) h at = tt
expire_one-Partly k n i c (some (some con)) h at =
    let d = shut_down-Ended c i con true connection_timeout h.kept at in
    subst (Partly k n) (sym d.shuts) (
      Healthy-at k n n i c d.result (omega arith) h d.kept d.slots
        (subst (Holds k n i) (sym d.vacated) tt))

and_then-Partly :
    (k n : ℕ) (f : Container → Option Container) (o : Option Container)
    → ((c : Container) → Healthy k n c → Partly k n (f c))
    → Partly k n o
    → Partly k n (and_then f o)
unfolding and_then
and_then-Partly k n f none rest h = tt
and_then-Partly k n f (some c) rest h = rest c h

Partly-if :
    (k n : ℕ) (b : Bool) (x y : Option Container)
    → Partly k n x
    → Partly k n y
    → Partly k n (if b then x else y)
Partly-if k n true x y v w = v
Partly-if k n false x y v w = w

expire-Partly :
    (k n now : ℕ) (ds : List Deadline) (c : Container)
    → Healthy k n c
    → Partly k n (expire now ds c)
unfolding expire
expire-Partly k n now [] c h = h
expire-Partly k n now ((t, i) ∷ ds) c h = Partly-if k n (ltb now t) (some c) _ h (
    and_then-Partly k n (expire now ds) (expire_one c i (get_connection c i))
      (λ d w. expire-Partly k n now ds d w) (expire_one-Partly k n i c (get_connection c i) h refl))

on_timeout_check-Partly :
    (k n now : ℕ) (c : Container) → Healthy k n c → Partly k n (on_timeout_check c now)
unfolding on_timeout_check
on_timeout_check-Partly k n now c h =
    let d : Container = record c { last_check_time = now } in
    let w : Healthy k n d = record { kept = set_check_Inv c now h.kept; slots = h.slots } in
    Partly-if k n (ltb now (c.last_check_time + 3000)) (some c) _ h
      (expire-Partly k n now c.timeout_records d w)

on_timeout_check-Runs :
    (k n now : ℕ) (c : Container) → Healthy k n c → Runs k n (on_timeout_check c now)
on_timeout_check-Runs k n now c h =
    let d = on_timeout_check-Checked c now h.kept in
    let w : Partly k n (some d.result) =
      subst (Partly k n) d.checks (on_timeout_check-Partly k n now c h) in
    subst (Runs k n) (sym d.checks) w

-- With a container that keeps the invariant, whose table has at least `k` slots, and whose connections
-- have well-formed buffers and a protocol handler that decides from the first 1024 bytes: a round of a
-- polling thread, for events with ids of indices below `k`, reads that come to an end and honest
-- sockets, always returns and leaves such a container, if each receive buffer has, below 2 ^ 64, room
-- for all bytes that arrive and for `n` more; and for `n` more there is room afterwards.
pub do_work-Runs :
    (enable : Bool) (k n now : ℕ) (evs : List PollEvent) (c : Container)
    → AreEvents k evs
    → Healthy k (arrivals evs + n) c
    → Runs k n (do_work enable now evs c)
unfolding do_work
do_work-Runs enable k n now evs c g h =
    and_then-Runs k (arrivals evs + n) n (process_events now evs)
      (if enable then on_timeout_check c now else some c)
      (λ d w. process_events-Runs k n now evs d g w)
      (Runs-if k (arrivals evs + n) enable (on_timeout_check c now) (some c)
        (on_timeout_check-Runs k (arrivals evs + n) now c h) h)
