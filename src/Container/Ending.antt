-- ===== src/Container/Ending.antt =====
-- `CloseEndpoint`, and `SendMsg` to an id whose connection is gone.
use raptor_lite.Common.{
  ℕ, ◌<◌, ◌^◌, ◌≡◌, refl, sym, ap, ◌∙◌, Bool, false, Option, none, some, arith, ◌==◌, get_elem?,
  inl, inr, Option-cases,
}
use raptor_lite.Cid.{build_connection_id}
use raptor_lite.Slice.{Slice}
use raptor_lite.Endpoint.{Endpoint}
use raptor_lite.Connection.{Connection, manual_shutdown}
use raptor_lite.Container.{Container, Slot, connection_of, check_connection_id}
use raptor_lite.Container.Table.{Inv}
use raptor_lite.Container.Admission.{holder, first_of, check_connection_id-build}
use raptor_lite.Container.Serving.{there, shut_down-Ended}
use raptor_lite.Container.Calls.{
  close_checked, send_checked, send_msg, sending_on, shut_down_slot, close_endpoint,
}

-- What a call of `CloseEndpoint` leaves of the connection at an index.
pub record Closed (c : Container) (ep : Endpoint) (notify : Bool) (i : ℕ) : Type 0 where
  pub result : Container
  pub closes : close_endpoint c ep notify ≡ some result
  pub kept : Inv result
  pub gone : holder result i ≡ none
  pub others : (j : ℕ) → (j == i) ≡ false → holder result j ≡ holder c j
  pub refused : (s : Slice) → send_msg result ep.connection_id s ≡ some (result, false)

pub connection_of_holder :
    (o : Option Slot) (con : Connection) → first_of o ≡ some con → connection_of o ≡ some (some con)
connection_of_holder none con h = cc
connection_of_holder (some s) con h = ap some h

-- A slot that is there and holds nothing refuses a message.
sending_refused :
    (c : Container) (index : ℕ) (s : Slice) (o : Option Slot)
    → connection_of o ≡ some none
    → sending_on c index s o ≡ some (c, false)
sending_refused c index s none h = cc
sending_refused c index s (some t) h = elim (Option-cases t.first) [
  | inl e ↦ rw e refl
  | inr (con, e) ↦ absurd (grind (arith, e, h))
]

send_refused :
    (c : Container) (cid i : ℕ) (s : Slice)
    → check_connection_id c cid ≡ some i
    → connection_of (get_elem? c.mgr i) ≡ some none
    → send_msg c cid s ≡ some (c, false)
unfolding send_msg
send_refused c cid i s ok gone =
    ap (send_checked c s) ok ∙ sending_refused c i s (get_elem? c.mgr i) gone

-- In a container that keeps the invariant, with a 16-bit magic number, closing an endpoint that has
-- the id of a connection in the table succeeds and keeps the invariant; that connection is gone and
-- the others stay; and a message sent to the same id is then refused.
pub close_endpoint-Closed :
    (c : Container) (ep : Endpoint) (notify : Bool) (port i : ℕ) (con : Connection)
    → Inv c
    → c.magic_number < 2 ^ 16
    → port < 2 ^ 16
    → ep.connection_id ≡ build_connection_id c.magic_number port i
    → holder c i ≡ some con
    → Closed c ep notify i
unfolding close_endpoint shut_down_slot
close_endpoint-Closed c ep notify port i con v m p id held =
    let at_i = connection_of_holder (get_elem? c.mgr i) con held in
    let lt : i < c.max_container_size = omega (arith, there c i con at_i, v.bounded) in
    let d = shut_down-Ended c i con notify manual_shutdown v at_i in
    let same : check_connection_id d.result ep.connection_id ≡ some i =
      rw (id, sym d.magic)
        (check_connection_id-build d.result port i d.kept (rw d.magic m) p (rw d.limits lt)) in
    record {
      result = d.result;
      closes =
          ap (close_checked c notify)
            (ap (check_connection_id c) id ∙ check_connection_id-build c port i v m p lt)
          ∙ ap (shut_down_slot c i notify manual_shutdown) at_i
          ∙ d.shuts;
      kept = d.kept;
      gone = d.gone;
      others = d.others;
      refused = λ s. send_refused d.result ep.connection_id i s same d.vacated;
    }
