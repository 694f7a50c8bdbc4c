-- ===== src/Container/Events.antt =====
-- `OnErrorEvent` and `OnSendEvent`: what they leave of the table.
use raptor_lite.Common.{
  ℕ, ◌+◌, ◌≡◌, refl, sym, ap, ◌∙◌, subst, Bool, false, Option, none, some, List, arith, ◌==◌,
  if◌then◌else◌, length-set, get_elem?, set, inl, inr, Bool-cases, ==_self, eq_of_==,
}
use raptor_lite.Cid.{build_connection_id}
use raptor_lite.SliceBuffer.Contents.{IsBuffer}
use raptor_lite.Connection.{Connection, Effect, Sent, do_send_event}
use raptor_lite.Connection.Sending.{Honest, SendDone, do_send_event-SendDone}
use raptor_lite.Container.{Container, Slot, get_connection, connection_of, update_connection, serve}
use raptor_lite.Container.Timeouts.{find_index}
use raptor_lite.Container.Table.{Inv, occupied, vacant, deadline_of, get_elem?-set, get_elem?-some}
use raptor_lite.Container.Admission.{holder, first_of}
use raptor_lite.Container.Serving.{serve-Told, told-Inv, there}
use raptor_lite.Container.Refreshing.{refresh_time-Refreshed}
use raptor_lite.Container.Ending.{connection_of_holder}
use raptor_lite.Container.Calls.{on_send_event, event_at, event_on, after_event}

abbrev with_connection : Slot → Connection → Slot
with_connection s k = record s { first = some k }

module _ (c : Container) (i : ℕ) (s : Slot) (con after : Connection) (v : Inv c)
    (here : get_elem? c.mgr i ≡ some s) (full : s.first ≡ some con)
    (same : after.endpoint ≡ con.endpoint) where
  slots :
      (j : ℕ)
      → get_elem? (set c.mgr i (with_connection s after)) j
        ≡ (if j == i then some (with_connection s after) else get_elem? c.mgr j)
  slots j = get_elem?-set c.mgr i j s (with_connection s after) here

  -- What does not look into a connection sees no change.
  unchanged {ℓ} :
      {A : Type ℓ} (f : Option Slot → A)
      → f (some (with_connection s after)) ≡ f (some s)
      → (j : ℕ) → f (get_elem? (set c.mgr i (with_connection s after)) j) ≡ f (get_elem? c.mgr j)
  unchanged f e j = ap f (slots j) ∙ elim (Bool-cases (j == i)) [
    | inl at ↦ rw (at, eq_of_== j i at, here) e
    | inr ne ↦ rw ne refl
  ]

  ids_updated :
      (j : ℕ) (k : Connection)
      → get_connection (update_connection c i s after) j ≡ some (some k)
      → k.endpoint.connection_id ≡ build_connection_id c.magic_number k.endpoint.listen_port j
  ids_updated j k h = elim (Bool-cases (j == i)) [
    | inl at ↦
        let it : some (some after) ≡ some (some k) =
          sym (
            ap connection_of (
              slots j
              ∙ ap (λ (b : Bool). if b then some (with_connection s after) else get_elem? c.mgr j)
                  at))
          ∙ h in
        let is_after : after ≡ k = grind (arith, it) in
        rw (eq_of_== j i at) (
          subst
            (λ (x : Connection).
              x.endpoint.connection_id
              ≡ build_connection_id c.magic_number x.endpoint.listen_port i)
            is_after (rw same (v.ids i con (ap connection_of here ∙ ap some full))))
    | inr ne ↦ v.ids j k (
        sym (
          ap connection_of (
            slots j
            ∙ ap (λ (b : Bool). if b then some (with_connection s after) else get_elem? c.mgr j)
                ne))
        ∙ h)
  ]

  updated-Inv : Inv (update_connection c i s after)
  updated-Inv = record {
    free_vacant = λ j. v.free_vacant j ∙ sym (unchanged vacant (rw full refl) j);
    one_deadline = λ j. v.one_deadline j ∙ sym (unchanged occupied (rw full refl) j);
    known = λ j. v.known j ∙ sym (unchanged deadline_of refl j);
    sorted = v.sorted;
    bounded = rw (length-set c.mgr i (with_connection s after)) v.bounded;
    small = v.small;
    ids = ids_updated;
  }

pub holder_of_connection :
    (o : Option Slot) (con : Connection) → connection_of o ≡ some (some con) → first_of o ≡ some con
holder_of_connection none con h = cc
holder_of_connection (some s) con h = grind (arith, h)

-- What a sending event leaves of the connection at an index.
pub record SendHandled (c : Container) (i errno now : ℕ) (socket : ℕ → List ℕ → Sent)
    (con : Connection) : Type 0 where
  pub result : Container
  pub handles : on_send_event c i errno now socket ≡ some result
  pub kept : Inv result
  pub after : Connection
  pub still_here : get_connection result i ≡ some (some after)
  pub same_endpoint : after.endpoint ≡ con.endpoint
  pub same_proto : after.proto ≡ con.proto
  pub same_received : after.rcv_buffer ≡ con.rcv_buffer
  pub buffered : IsBuffer after.snd_buffer
  pub due : find_index i result.timeout_records ≡ some (now + c.connection_timeoutms, i)
  pub others : (j : ℕ) → (j == i) ≡ false → get_connection result j ≡ get_connection c j

-- The container when the effects of a connection's own handler are served.
abbrev pub served : Container → ℕ → Slot → Connection → Connection → List Effect → Container
served c i s con after es = serve (update_connection c i s after) con.endpoint es

pub record Served (c d : Container) (i : ℕ) (after : Connection) : Type 0 where
  pub kept : Inv d
  pub found : get_connection d i ≡ some (some after)
  pub limit : d.connection_timeoutms ≡ c.connection_timeoutms
  pub others : (j : ℕ) → (j == i) ≡ false → get_connection d j ≡ get_connection c j

pub served-Served :
    (c : Container) (i : ℕ) (s : Slot) (con after : Connection) (es : List Effect)
    → Inv c
    → get_elem? c.mgr i ≡ some s
    → s.first ≡ some con
    → after.endpoint ≡ con.endpoint
    → Served c (served c i s con after es) i after
served-Served c i s con after es v here full same =
    let u : Container = update_connection c i s after in
    let slot_now =
      slots c i s con after v here full same i
      ∙ ap (λ (b : Bool). if b then some (with_connection s after) else get_elem? c.mgr i)
          (==_self i) in
    let told_now = serve-Told u con.endpoint es in
    record {
      kept =
          subst (λ (x : Container). Inv x) (sym told_now.same)
            (told-Inv u told_now.messages told_now.number told_now.requests
              (updated-Inv c i s con after v here full same));
      found =
          ap (λ (m : List Slot). connection_of (get_elem? m i))
            (ap (λ (x : Container). x.mgr) told_now.same)
          ∙ ap connection_of slot_now;
      limit = ap (λ (x : Container). x.connection_timeoutms) told_now.same;
      others = λ j ne.
          ap (λ (x : Container). connection_of (get_elem? x.mgr j)) told_now.same
          ∙ ap connection_of (
              slots c i s con after v here full same j
              ∙ ap (λ (b : Bool). if b then some (with_connection s after) else get_elem? c.mgr j)
                  ne);
    }

send_at :
    (c : Container) (i errno now : ℕ) (socket : ℕ → List ℕ → Sent) (s : Slot) (con : Connection)
    → Inv c
    → get_elem? c.mgr i ≡ some s
    → s.first ≡ some con
    → SendDone con (do_send_event con socket)
    → SendHandled c i errno now socket con
unfolding on_send_event event_at event_on after_event
send_at c i errno now socket s con v here full done =
    let w = served-Served c i s con done.after done.effects v here full done.same_endpoint in
    let d : Container = served c i s con done.after done.effects in
    let r = refresh_time-Refreshed d i now w.kept (there d i done.after w.found) in
    record {
      result = r.result;
      handles =
          ap (event_at c i errno now (λ k. do_send_event k socket)) here
          ∙ ap (event_on c i errno now (λ k. do_send_event k socket) s) full
          ∙ ap (after_event c i errno now s con) done.returns
          ∙ r.refreshes;
      kept = r.kept;
      after = done.after;
      still_here = r.same i ∙ w.found;
      same_endpoint = done.same_endpoint;
      same_proto = done.same_proto;
      same_received = done.same_received;
      buffered = done.buffered;
      due = r.due done.after w.found ∙ ap (λ (k : ℕ). some (now + k, i)) w.limit;
      others = λ j ne. r.same j ∙ w.others j ne;
    }

pub on_send_event-SendHandled :
    (c : Container) (i errno now : ℕ) (socket : ℕ → List ℕ → Sent) (con : Connection)
    → Inv c
    → holder c i ≡ some con
    → Honest socket
    → IsBuffer con.snd_buffer
    → SendHandled c i errno now socket con
on_send_event-SendHandled c i errno now socket con v held honest b =
    let at_i = connection_of_holder (get_elem? c.mgr i) con held in
    let (s, here) = get_elem?-some c.mgr i (there c i con at_i) in
    send_at c i errno now socket s con v here (sym (ap first_of here) ∙ held)
      (do_send_event-SendDone con socket honest b)
