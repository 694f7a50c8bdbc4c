-- ===== src/Container/Arrivals.antt =====
-- `OnRecvEvent`: what it leaves of the table and of the bytes that arrive.
use raptor_lite.Common.{
  ℕ, ◌+◌, ◌<◌, ◌^◌, ◌≡◌, refl, sym, ap, ◌∙◌, Bool, true, false, Option, none, some, List, [], ◌∷◌,
  ◌++◌, map, ◌⊎◌, inl, inr, if◌then◌else◌, length, get_elem?, arith, length-append, ◌≤◌, ◌==◌,
}
use raptor_lite.Common.Int.{ℤ}
use raptor_lite.Slice.{Slice}
use raptor_lite.SliceBuffer.Contents.{contents, all_bytes, IsBuffer}
use raptor_lite.Protocol.Refine.{DecidesEarly}
use raptor_lite.Connection.{
  Connection, Effect, Recv, RecvRun, returned, starved, faulted, hung, on_data_received,
  recv_modify, socket_error, on_recv, after_recv, do_recv_event,
}
use raptor_lite.Connection.Receiving.{Reads, taken, DeliversPackets, on_recv-DeliversPackets}
use raptor_lite.Container.{Container, Slot, get_connection}
use raptor_lite.Container.Timeouts.{find_index}
use raptor_lite.Container.Table.{Inv, get_elem?-some}
use raptor_lite.Container.Admission.{holder, first_of}
use raptor_lite.Container.Serving.{there, shut_down-Ended}
use raptor_lite.Container.Refreshing.{refresh_time-Refreshed}
use raptor_lite.Container.Ending.{connection_of_holder}
use raptor_lite.Container.Events.{served, served-Served, holder_of_connection}
use raptor_lite.Container.Calls.{on_recv_event, event_at, event_on, after_event}

-- The packets are delivered to the service, and the socket is armed again if all went well.
abbrev pub delivering_effects : Connection → List Slice → Bool → List Effect
delivering_effects c packets ok =
    map on_data_received packets
    ++ (if ok then recv_modify c.endpoint.fd c.endpoint.connection_id ∷ [] else [])

-- What `DoRecvEvent` leaves of a connection: the packets that it delivers, the receive buffer and what
-- a failed parse keeps unread are the bytes `xs`.
pub record RecvDone (c : Connection) (xs : List ℕ) (r : Option (Connection × List Effect × Bool))
    : Type 0 where
  pub after : Connection
  pub packets : List Slice
  pub ok : Bool
  pub returns : r ≡ some (after, delivering_effects c packets ok, ok)
  pub same_endpoint : after.endpoint ≡ c.endpoint
  pub same_proto : after.proto ≡ c.proto
  pub same_sent : after.snd_buffer ≡ c.snd_buffer
  pub buffered : IsBuffer after.rcv_buffer
  pub unread : List ℕ
  pub bytes : all_bytes packets ++ (contents after.rcv_buffer ++ unread) ≡ xs
  pub all_read : ok ≡ true → unread ≡ []

after_recv-RecvDone :
    (c : Connection) (xs : List ℕ) (r : RecvRun)
    → DeliversPackets xs r
    → RecvDone c xs (after_recv c r)
unfolding after_recv
after_recv-RecvDone c xs (returned ok ds b) (v, unread, e, full) = record {
  after = record c { rcv_buffer = b };
  packets = ds;
  ok = ok;
  returns = refl;
  same_endpoint = refl;
  same_proto = refl;
  same_sent = refl;
  buffered = v;
  unread = unread;
  bytes = e;
  all_read = full;
}
after_recv-RecvDone c xs starved h = absurd h
after_recv-RecvDone c xs faulted h = absurd h
after_recv-RecvDone c xs hung h = absurd h

-- The connection is still in its slot, with a new deadline, and all that was read is in a packet or in
-- its buffer; or its slot is vacant.
abbrev pub RecvEnd : Container → Container → ℕ → ℕ → List ℕ → Connection → List Slice → Type 0
RecvEnd c result i now xs con packets =
    ((after : Connection) × (holder result i ≡ some after)
      × (after.endpoint ≡ con.endpoint)
      × IsBuffer after.rcv_buffer
      × (all_bytes packets ++ (contents after.rcv_buffer ++ []) ≡ xs)
      × (find_index i result.timeout_records ≡ some (now + c.connection_timeoutms, i)))
    ⊎ (holder result i ≡ none)

-- What a receiving event leaves of the connection at an index.
pub record RecvHandled (c : Container) (i errno now : ℕ) (socket : List Recv) (con : Connection)
    (xs : List ℕ) : Type 0 where
  pub result : Container
  pub packets : List Slice
  pub ok : Bool
  pub left : Connection
  pub delivers : do_recv_event con socket ≡ some (left, delivering_effects con packets ok, ok)
  pub handles : on_recv_event c i errno now socket ≡ some result
  pub kept : Inv result
  pub ends : RecvEnd c result i now xs con packets
  pub slot : get_connection result i ≡ some (if ok then some left else none)
  pub same_proto : left.proto ≡ con.proto
  pub same_sent : left.snd_buffer ≡ con.snd_buffer
  pub buffered : IsBuffer left.rcv_buffer
  pub within : length (contents left.rcv_buffer) ≤ length xs
  pub others : (j : ℕ) → (j == i) ≡ false → get_connection result j ≡ get_connection c j

within_bytes :
    (packets : List Slice) (ys zs xs : List ℕ)
    → all_bytes packets ++ (ys ++ zs) ≡ xs
    → length ys ≤ length xs
within_bytes packets ys zs xs e =
    omega (arith, ap length e, length-append (all_bytes packets) (ys ++ zs), length-append ys zs)

recv_at :
    (c : Container) (i errno now : ℕ) (socket : List Recv) (s : Slot) (con : Connection)
    (xs : List ℕ) (after : Connection) (packets : List Slice) (unread : List ℕ) (ok : Bool)
    → Inv c
    → get_elem? c.mgr i ≡ some s
    → s.first ≡ some con
    → do_recv_event con socket ≡ some (after, delivering_effects con packets ok, ok)
    → after.endpoint ≡ con.endpoint
    → after.proto ≡ con.proto
    → after.snd_buffer ≡ con.snd_buffer
    → IsBuffer after.rcv_buffer
    → all_bytes packets ++ (contents after.rcv_buffer ++ unread) ≡ xs
    → (ok ≡ true → unread ≡ [])
    → RecvHandled c i errno now socket con xs
unfolding on_recv_event event_at event_on after_event
recv_at c i errno now socket s con xs after packets unread true v here full e same proto unsent b
      bytes read =
    let es : List Effect = delivering_effects con packets true in
    let w = served-Served c i s con after es v here full same in
    let d : Container = served c i s con after es in
    let r = refresh_time-Refreshed d i now w.kept (there d i after w.found) in
    record {
      result = r.result;
      packets = packets;
      ok = true;
      left = after;
      delivers = e;
      handles =
          ap (event_at c i errno now (λ k. do_recv_event k socket)) here
          ∙ ap (event_on c i errno now (λ k. do_recv_event k socket) s) full
          ∙ ap (after_event c i errno now s con) e
          ∙ r.refreshes;
      kept = r.kept;
      ends = inl (
        after,
        holder_of_connection (get_elem? r.result.mgr i) after (r.same i ∙ w.found),
        same,
        b,
        ap (λ (ys : List ℕ). all_bytes packets ++ (contents after.rcv_buffer ++ ys))
              (sym (read refl))
            ∙ bytes,
        r.due after w.found ∙ ap (λ (k : ℕ). some (now + k, i)) w.limit,
      );
      slot = r.same i ∙ w.found;
      same_proto = proto;
      same_sent = unsent;
      buffered = b;
      within = within_bytes packets (contents after.rcv_buffer) unread xs bytes;
      others = λ j ne. r.same j ∙ w.others j ne;
    }
recv_at c i errno now socket s con xs after packets unread false v here full e same proto unsent b
      bytes read =
    let es : List Effect = delivering_effects con packets false in
    let w = served-Served c i s con after es v here full same in
    let d : Container = served c i s con after es in
    let r = shut_down-Ended d i after true (socket_error errno) w.kept w.found in
    record {
      result = r.result;
      packets = packets;
      ok = false;
      left = after;
      delivers = e;
      handles =
          ap (event_at c i errno now (λ k. do_recv_event k socket)) here
          ∙ ap (event_on c i errno now (λ k. do_recv_event k socket) s) full
          ∙ ap (after_event c i errno now s con) e
          ∙ r.shuts;
      kept = r.kept;
      ends = inr r.gone;
      slot = r.vacated;
      same_proto = proto;
      same_sent = unsent;
      buffered = b;
      within = within_bytes packets (contents after.rcv_buffer) unread xs bytes;
      others = λ j ne. r.slots j ne ∙ w.others j ne;
    }

pub on_recv_event-RecvHandled :
    (c : Container) (i errno now : ℕ) (socket : List Recv) (con : Connection) (check : List ℕ → ℤ)
    → Inv c
    → holder c i ≡ some con
    → DecidesEarly check
    → con.proto ≡ some check
    → Reads socket
    → IsBuffer con.rcv_buffer
    → length (contents con.rcv_buffer) + length (taken socket) < 2 ^ 64
    → RecvHandled c i errno now socket con (contents con.rcv_buffer ++ taken socket)
unfolding do_recv_event
on_recv_event-RecvHandled c i errno now socket con check v held early p reads b room =
    let at_i = connection_of_holder (get_elem? c.mgr i) con held in
    let (s, here) = get_elem?-some c.mgr i (there c i con at_i) in
    let done =
      after_recv-RecvDone con (contents con.rcv_buffer ++ taken socket) (on_recv con socket)
        (on_recv-DeliversPackets con check socket early p reads b room) in
    recv_at c i errno now socket s con (contents con.rcv_buffer ++ taken socket) done.after
      done.packets done.unread done.ok v here (sym (ap first_of here) ∙ held) done.returns
      done.same_endpoint done.same_proto done.same_sent done.buffered done.bytes done.all_read
