-- ===== src/Container.antt =====
-- src/common/container_impl.cc, as it is built for Linux: the table of connections with its free
-- indices, the table of deadlines, and the queue of messages to the application's handlers. Each
-- operation is one call under the container's lock; the clock, the results of socket calls and
-- `errno` are arguments. `none` is undefined behaviour or a call that does not return.
pub mod Timeouts
pub mod Table
pub mod Deleting
pub mod Refreshing
pub mod Growing
pub mod Attaching
pub mod Admission
pub mod Starting
pub mod Calls
pub mod Serving
pub mod Expiry
pub mod Ending
pub mod Events
pub mod Arrivals
pub mod Dispatching
pub mod Messages
pub mod Stopping
use raptor_lite.Common.{
  ℕ, zero, suc, ◌+◌, ◌-◌, ◌*◌, ◌%◌, ◌^◌, Bool, true, false, ◌&&◌, ◌||◌, Option, none, some, List,
  [], ◌∷◌, ◌++◌, ltb, leb, ◌==◌, if◌then◌else◌, is_some, length, get_elem?, set, replicate,
}
use raptor_lite.Common.Int.{ℤ}
use raptor_lite.Words.{u32}
use raptor_lite.Cid.{invalid_connection_id, build_connection_id, get_magic_number, get_user_id}
use raptor_lite.Slice.{Slice}
use raptor_lite.Endpoint.{Endpoint, set_connection, set_container, is_online}
use raptor_lite.Connection
use raptor_lite.Connection.{
  Connection, Event, Effect, on_data_received, on_closed, Recv, Sent, socket_error,
  connection_timeout,
}
use Timeouts.{Deadline, insert, erase}

-- `ContainerImpl::Option`, without the thread counts. A handler is `true` where it is set;
-- `heartbeat` is the interval of the heartbeat handler, `proto` the check of the protocol handler.
pub record Settings : Type 0 where
  pub default_container_size : ℕ
  pub max_container_size : ℕ
  pub connection_timeoutms : ℕ
  pub proto : Option (List ℕ → ℤ)
  pub heartbeat : Option ℕ
  pub closed_handler : Bool
  pub notify_handler : Bool

-- `TcpMessageNode`
pub data Message : Type 0 where
  recv_a_message : Endpoint → Slice → Message
  close_event : Endpoint → Event → Message
  heartbeat_event : Endpoint → Message
  endpoint_notify : Endpoint → Message

-- `ConnectionInfo`: the connection, and the iterator of its deadline, `none` for `end()`. An
-- iterator is given by what it points at: equal entries of a multimap cannot be told apart.
pub record Slot : Type 0 where
  pub first : Option Connection
  pub second : Option Deadline

abbrev pub vacant_slot : Slot
vacant_slot = record { first = none; second = none }

-- `SetTimer(tid1, tid2, delay)`
pub record TimerRequest : Type 0 where
  pub tid1 : ℕ
  pub tid2 : ℕ
  pub delay : ℕ

-- `counter` is `Connection::global_counter`; `log` keeps what was asked of pollers and sockets, and
-- `timers` what was asked of the timer, latest last. `timer_thread` says that there is a timer.
pub record Container : Type 0 where
  pub settings : Settings
  pub open settings use *
  pub mgr : List Slot
  pub timeout_records : List Deadline
  pub free_index_list : List ℕ
  pub magic_number : ℕ
  pub last_check_time : ℕ
  pub queue : List Message
  pub count : ℕ
  pub timer_thread : Bool
  pub counter : ℕ
  pub log : List Effect
  pub timers : List TimerRequest

-- `_mpscq.push`, `_count.FetchAdd`, `_cv.Signal`
unfoldable pub post : Container → Message → Container
post c m = record c { queue = c.queue ++ (m ∷ []); count = u32 (c.count + 1) }

unfoldable pub on_notify : Container → Endpoint → Container
on_notify c ep = post c (endpoint_notify ep)

unfoldable pub on_data : Container → Endpoint → Slice → Container
on_data c ep s = post c (recv_a_message ep s)

unfoldable pub on_closed_event : Container → Endpoint → Event → Container
on_closed_event c ep ev = if c.closed_handler then post c (close_event ep ev) else c

unfoldable pub on_timer_event : Container → Endpoint → Container
on_timer_event c ep = if is_some c.heartbeat then post c (heartbeat_event ep) else c

-- The effects of a connection, in order: its calls of the service come back to the container.
unfoldable pub serve_one : Container → Endpoint → Effect → Container
serve_one c ep (on_data_received s) = on_data c ep s
serve_one c ep (on_closed ev) = on_closed_event c ep ev
serve_one c ep e = record c { log = c.log ++ (e ∷ []) }

unfoldable pub serve : Container → Endpoint → List Effect → Container
serve c ep [] = c
serve c ep (e ∷ es) = serve (serve_one c ep e) ep es

-- `_free_index_list.emplace_back` for each index from `i` on.
abbrev pub index_range : (i n : ℕ) → List ℕ
index_range i zero = []
index_range i (suc n) = u32 i ∷ index_range (i + 1) n

-- The growth of the table when no index is free.
abbrev pub expanded : Container → ℕ
expanded c =
    let n : ℕ = length c.mgr in
    if ltb (n * 2) c.max_container_size then n * 2 else c.max_container_size

pub expand : Container → Container
expand c = record c {
  mgr = c.mgr ++ replicate (expanded c - length c.mgr) vacant_slot;
  free_index_list = c.free_index_list ++ index_range (length c.mgr) (expanded c - length c.mgr);
}

no_index : List ℕ → Bool
no_index [] = true
no_index (i ∷ is) = false

pub start_heartbeat : Container → ℕ → ℕ → Container
start_heartbeat c index handle_id = elim c.heartbeat [
  | none ↦ c
  | some interval ↦
      if c.timer_thread
      then record c {
        timers = c.timers ++ (record { tid1 = index; tid2 = handle_id; delay = u32 interval } ∷ []);
      }
      else c
]

-- The connection that takes the slot `index` for the endpoint.
pub attached : Container → Endpoint → ℕ → Connection × ℕ
attached c ep index =
    let cid = build_connection_id c.magic_number ep.listen_port index in
    let (con, counter) =
      Connection.new_connection c.counter (set_container (set_connection ep cid)) in
    (Connection.set_protocol con c.proto, counter)

pub taken : Container → Endpoint → (now index : ℕ) → List ℕ → Container
taken c ep now index rest =
    let (con, counter) = attached c ep index in
    let entry : Deadline = (now + c.connection_timeoutms, index) in
    record c {
      mgr = set c.mgr index (record { first = some con; second = some entry });
      timeout_records = insert entry c.timeout_records;
      free_index_list = rest;
      counter = counter;
      log = c.log ++ Connection.init con;
    }

place_at : Container → Endpoint → (now index : ℕ) → List ℕ → Container
place_at c ep now index rest =
    let (con, counter) = attached c ep index in
    start_heartbeat (taken c ep now index rest) index con.handle_id

-- From `_free_index_list.front()` on.
place : Container → Endpoint → ℕ → List ℕ → Option Container
place c ep now [] = none
place c ep now (index ∷ rest) = some (place_at c ep now index rest)

-- `AttachEndpointImpl` behind the growth of the table.
pub attach_in : Container → Endpoint → ℕ → Option (Container × Bool)
unfolding place place_at taken attached
attach_in c ep now = elim (place c ep now c.free_index_list) [
  | none ↦ none
  | some e ↦ some (e, true)
]

-- `AttachEndpointImpl`; the Boolean is RAPTOR_ERROR_NONE. A refused endpoint changes nothing.
pub attach_endpoint_impl : Container → Endpoint → ℕ → Option (Container × Bool)
attach_endpoint_impl c ep now =
    if no_index c.free_index_list && leb c.max_container_size (length c.mgr)
    then some (c, false)
    else attach_in (if no_index c.free_index_list then expand c else c) ep now

-- `AttachEndpoint`
pub attach_endpoint : Container → Endpoint → (now : ℕ) → (notify : Bool) → Option (Container × Bool)
attach_endpoint c ep now notify = elim (attach_endpoint_impl c ep now) [
  | none ↦ none
  | some (d, ok) ↦ some ((if ok && notify && d.notify_handler then on_notify d ep else d), ok)
]

-- `CheckConnectionId`
pub check_connection_id : Container → ℕ → Option ℕ
check_connection_id c cid =
    if cid == invalid_connection_id
    then none
    else if get_magic_number cid == c.magic_number
    then (let idx = get_user_id cid in
        if idx == 2 ^ 32 - 1 || leb c.max_container_size idx then none else some idx)
    else none

abbrev pub connection_of : Option Slot → Option (Option Connection)
connection_of none = none
connection_of (some s) = some s.first

-- `GetConnection`: `none` is a read behind the end of `_mgr`.
abbrev pub get_connection : Container → ℕ → Option (Option Connection)
get_connection c index = connection_of (get_elem? c.mgr index)

-- The table with a new state of the connection at `index`: it is one object, shared.
abbrev pub update_connection : Container → ℕ → Slot → Connection → Container
update_connection c index s con = record c { mgr = set c.mgr index (record s { first = some con }) }

-- `_timeout_records.erase(it)`; of `end()` it is undefined.
erase_at : Option Deadline → List Deadline → Option (List Deadline)
erase_at none ds = none
erase_at (some d) ds = some (erase d ds)

vacate : Container → ℕ → Option (List Deadline) → Option Container
vacate c index none = none
vacate c index (some ds) = some (record c {
  mgr = set c.mgr index vacant_slot;
  timeout_records = ds;
  free_index_list = c.free_index_list ++ (index ∷ []);
})

delete_slot : Container → ℕ → Option Slot → Option Container
delete_slot c index none = none
delete_slot c index (some s) =
    if is_some s.first then vacate c index (erase_at s.second c.timeout_records) else some c

-- `DeleteConnection`
pub delete_connection : Container → ℕ → Option Container
unfolding delete_slot vacate erase_at
delete_connection c index = delete_slot c index (get_elem? c.mgr index)

refresh_slot : Container → (index now : ℕ) → Option Slot → Option Container
refresh_slot c index now none = none
refresh_slot c index now (some s) =
    let entry : Deadline = (now + c.connection_timeoutms, index) in
    if is_some s.first
    then elim (erase_at s.second c.timeout_records) [
      | none ↦ none
      | some ds ↦ some (record c {
        mgr = set c.mgr index (record s { second = some entry });
        timeout_records = insert entry ds;
      })
    ]
    else some c

-- `RefreshTime`
pub refresh_time : Container → (index now : ℕ) → Option Container
unfolding refresh_slot erase_at
refresh_time c index now = refresh_slot c index now (get_elem? c.mgr index)
