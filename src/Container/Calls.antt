-- ===== src/Container/Calls.antt =====
-- The calls that the application, the pollers and the timer make into a container.
use raptor_lite.Common.{
  ℕ, ◌+◌, Bool, true, false, ◌&&◌, Option, none, some, List, [], ◌∷◌, ◌++◌, ltb, ◌==◌,
  if◌then◌else◌, get_elem?,
}
use raptor_lite.Words.{u32}
use raptor_lite.Slice.{Slice}
use raptor_lite.Endpoint.{Endpoint, is_online}
use raptor_lite.Connection
use raptor_lite.Connection.{
  Connection, Event, Effect, Recv, Sent, manual_shutdown, socket_error, connection_timeout,
  do_recv_event, do_send_event,
}
use raptor_lite.Container.{
  Container, Slot, on_timer_event, serve, update_connection, get_connection, check_connection_id,
  delete_connection, refresh_time,
}
use raptor_lite.Container.Timeouts.{Deadline}

-- `SendMsg` of the container, with its result.
abbrev pub sending_on : Container → ℕ → Slice → Option Slot → Option (Container × Bool)
sending_on c index s none = none
sending_on c index s (some slot) = elim slot.first [
  | none ↦ some (c, false)
  | some con ↦
      let (after, es, ok) = Connection.send_msg con s in
      some (serve (update_connection c index slot after) con.endpoint es, ok)
]

abbrev pub send_checked : Container → Slice → Option ℕ → Option (Container × Bool)
send_checked c s none = some (c, false)
send_checked c s (some index) = sending_on c index s (get_elem? c.mgr index)

unfoldable pub send_msg : Container → ℕ → Slice → Option (Container × Bool)
send_msg c connection_id s = send_checked c s (check_connection_id c connection_id)

-- `con->Shutdown(notify, ev); DeleteConnection(index)`. The table drops the connection at the end,
-- and with it the state that `Shutdown` leaves.
unfoldable pub shut_down : Container → ℕ → Connection → Bool → Event → Option Container
shut_down c index con notify ev =
    delete_connection (serve c con.endpoint (Connection.shutdown con notify ev).1) index

unfoldable pub shut_down_slot :
    Container → ℕ → Bool → Event → Option (Option Connection) → Option Container
shut_down_slot c index notify ev none = none
shut_down_slot c index notify ev (some none) = some c
shut_down_slot c index notify ev (some (some con)) = shut_down c index con notify ev

abbrev pub close_checked : Container → Bool → Option ℕ → Option Container
close_checked c event_notify none = some c
close_checked c event_notify (some index) =
    shut_down_slot c index event_notify manual_shutdown (get_connection c index)

unfoldable pub close_endpoint : Container → Endpoint → Bool → Option Container
close_endpoint c ep event_notify =
    close_checked c event_notify (check_connection_id c ep.connection_id)

unfoldable pub on_error_event : Container → ℕ → ℕ → Option Container
on_error_event c index error_code =
    shut_down_slot c index true (socket_error error_code) (get_connection c index)

-- The rest of `OnRecvEvent` and `OnSendEvent`, with the result of the connection's own handler.
unfoldable pub after_event :
    Container
    → ℕ
    → ℕ
    → ℕ
    → Slot
    → Connection
    → Option (Connection × List Effect × Bool)
    → Option Container
after_event c index errno now slot con none = none
after_event c index errno now slot con (some (after, es, ok)) =
    let d = serve (update_connection c index slot after) con.endpoint es in
    if ok then refresh_time d index now else shut_down d index after true (socket_error errno)

unfoldable pub event_on :
    Container
    → ℕ
    → ℕ
    → ℕ
    → (Connection → Option (Connection × List Effect × Bool))
    → Slot
    → Option Connection
    → Option Container
event_on c index errno now handler slot none = some c
event_on c index errno now handler slot (some con) =
    after_event c index errno now slot con (handler con)

unfoldable pub event_at :
    Container
    → ℕ
    → ℕ
    → ℕ
    → (Connection → Option (Connection × List Effect × Bool))
    → Option Slot
    → Option Container
event_at c index errno now handler none = none
event_at c index errno now handler (some slot) = event_on c index errno now handler slot slot.first

unfoldable pub on_recv_event : Container → (index errno now : ℕ) → List Recv → Option Container
on_recv_event c index errno now socket =
    event_at c index errno now (λ con. do_recv_event con socket) (get_elem? c.mgr index)

unfoldable pub on_send_event :
    Container → (index errno now : ℕ) → (ℕ → List ℕ → Sent) → Option Container
on_send_event c index errno now socket =
    event_at c index errno now (λ con. do_send_event con socket) (get_elem? c.mgr index)

-- `EventDetail`: the bits of `event_type`, the id, and the error code.
pub record EventDetail : Type 0 where
  pub connection_id : ℕ
  pub error_event : Bool
  pub recv_event : Bool
  pub send_event : Bool
  pub error_code : ℕ

abbrev pub process_checked :
    Container
    → EventDetail
    → (errno now : ℕ) → List Recv
    → (ℕ → List ℕ → Sent)
    → Option ℕ
    → Option Container
process_checked c detail errno now arriving leaving none = some c
process_checked c detail errno now arriving leaving (some index) =
    if detail.error_event
    then on_error_event c index detail.error_code
    else if detail.recv_event
    then on_recv_event c index errno now arriving
    else if detail.send_event
    then on_send_event c index errno now leaving
    else some c

unfoldable pub on_event_process :
    Container → EventDetail → (errno now : ℕ) → List Recv → (ℕ → List ℕ → Sent) → Option Container
on_event_process c detail errno now arriving leaving =
    process_checked c detail errno now arriving leaving (check_connection_id c detail.connection_id)

-- One round of the loop of `OnTimeoutCheck`, at an index: a slot with no connection is undefined.
unfoldable pub expire_one : Container → ℕ → Option (Option Connection) → Option Container
expire_one c index none = none
expire_one c index (some none) = none
expire_one c index (some (some con)) = shut_down c index con true connection_timeout

unfoldable pub and_then : (Container → Option Container) → Option Container → Option Container
and_then k none = none
and_then k (some c) = k c

-- The loop, over the records from its iterator on, which each round moves before it erases.
unfoldable pub expire : ℕ → List Deadline → Container → Option Container
expire now [] c = some c
expire now ((t, index) ∷ ds) c =
    if ltb now t
    then some c
    else and_then (expire now ds) (expire_one c index (get_connection c index))

unfoldable pub on_timeout_check : Container → ℕ → Option Container
on_timeout_check c now =
    if ltb now (c.last_check_time + 3000)
    then some c
    else expire now c.timeout_records (record c { last_check_time = now })

-- `OnTimer`: `tid1` is an index, `tid2` a handle.
next_heartbeat : Container → ℕ → ℕ → ℕ → Container
next_heartbeat c index handle interval = record c {
  timers = c.timers ++ (record { tid1 = index; tid2 = handle; delay = u32 interval } ∷ []);
}

on_timer_at : Container → ℕ → ℕ → Option (Option Connection) → Option Container
on_timer_at c index handle none = none
on_timer_at c index handle (some none) = some c
on_timer_at c index handle (some (some con)) =
    if con.handle_id == handle && is_online con.endpoint
    then elim c.heartbeat [
      | none ↦ none
      | some interval ↦ some (next_heartbeat (on_timer_event c con.endpoint) index handle interval)
    ]
    else some c

pub on_timer : Container → (tid1 tid2 : ℕ) → Option Container
unfolding on_timer_at next_heartbeat
on_timer c tid1 tid2 = on_timer_at c tid1 tid2 (get_connection c tid1)
