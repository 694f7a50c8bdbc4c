-- ===== src/Container/Messages.antt =====
-- The thread that hands messages to the application's handlers, and `Shutdown` of a container.
use raptor_lite.Common.{
  ◌==◌, if◌then◌else◌, ℕ, ◌+◌, ◌-◌, ◌^◌, false, Option, none, some, List, [], ◌∷◌,
}
use raptor_lite.Words.{u32}
use raptor_lite.Slice.{Slice}
use raptor_lite.Endpoint.{Endpoint}
use raptor_lite.Connection
use raptor_lite.Connection.{Connection, Event, manual_shutdown}
use raptor_lite.Container.{
  Container, Slot, Message, recv_a_message, close_event, heartbeat_event, endpoint_notify, serve,
}

-- The calls of the application's handlers.
pub data HandlerCall : Type 0 where
  on_message : Endpoint → Slice → HandlerCall
  on_closed_call : Endpoint → Event → HandlerCall
  on_heartbeat : Endpoint → HandlerCall
  on_notify_call : Endpoint → HandlerCall

-- `Dispatch`
abbrev pub dispatch : Message → HandlerCall
dispatch (recv_a_message ep s) = on_message ep s
dispatch (close_event ep ev) = on_closed_call ep ev
dispatch (heartbeat_event ep) = on_heartbeat ep
dispatch (endpoint_notify ep) = on_notify_call ep

-- `_count.FetchSub(1)`
abbrev pub count_down : ℕ → ℕ
count_down n = u32 (n + 2 ^ 32 - 1)

unfoldable pub next_message : Container → List Message → Container × List HandlerCall
next_message c [] = (c, [])
next_message c (m ∷ ms) = (record c { queue = ms; count = count_down c.count }, dispatch m ∷ [])

-- One round of `MessageQueueThread` that does not wait.
unfoldable pub message_round : Container → Container × List HandlerCall
unfolding next_message
message_round c = next_message c c.queue

-- A turn of `MessageQueueThread` that is not shut down: it waits while the count is 0.
unfoldable pub thread_turn : Container → Container × List HandlerCall
thread_turn c = if c.count == 0 then (c, []) else message_round c

-- The connections that `Shutdown` shuts down without telling the service.
unfoldable pub stop_one : Container → Option Connection → Container
stop_one c none = c
stop_one c (some con) = serve c con.endpoint (Connection.shutdown con false manual_shutdown).1

unfoldable pub shut_down_all : Container → List Slot → Container
shut_down_all c [] = c
shut_down_all c (s ∷ ss) = shut_down_all (stop_one c s.first) ss

-- The queue is emptied, one count for each message.
unfoldable pub drained : ℕ → List Message → ℕ
drained n [] = n
drained n (m ∷ ms) = drained (count_down n) ms

-- `Shutdown` of a running container, whose threads have ended.
unfoldable pub shutdown_container : Container → Container
unfolding shut_down_all drained
shutdown_container c =
    let d = shut_down_all (record c { timeout_records = []; free_index_list = [] }) c.mgr in
    record d { mgr = []; queue = []; count = drained d.count d.queue }
