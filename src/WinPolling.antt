-- ===== src/WinPolling.antt =====
-- src/windows/iocp_thread.cc: completions, the services that they are for, and the polling threads that
-- share one adaptor. Services are numbered; what the completion port gives is an argument.
pub mod Routing
use Prim.Native.Nat.{bit_and, bit_or}
use raptor_lite.Common.{
  ℕ, ◌+◌, ◌-◌, ◌^◌, Bool, true, false, ◌||◌, ◌&&◌, not, Option, none, some, List, [], ◌∷◌, ◌==◌,
  ltb, if◌then◌else◌,
}
use raptor_lite.Common.Int.{ℤ, pos, negsuc}

-- `kErrorEvent` to `kMaxEventValue`
abbrev pub error_event : ℕ
error_event = 1

abbrev pub connect_event : ℕ
connect_event = 8

abbrev pub max_event_value : ℕ
max_event_value = 17

-- `OverLappedEx` by its address, and whether it is the one of `Shutdown`.
pub record Overlapped : Type 0 where
  pub address : ℕ
  pub is_exit : Bool
  pub event_type : ℕ
  pub handle_id : ℕ

-- The answer of `GetQueuedCompletionStatus`, with the last error.
pub record Completion : Type 0 where
  pub ret : Bool
  pub transferred : ℕ
  pub completion_key : ℕ
  pub overlapped : Option Overlapped
  pub last_error : ℕ

pub record EventDetail : Type 0 where
  pub ptr : ℕ
  pub event_type : ℕ
  pub error_code : ℤ
  pub transferred : ℕ
  pub handle_id : ℕ
  pub address : ℕ

-- What a round of `WorkThread` makes of an answer; `bad_read` is a successful answer without an
-- `OVERLAPPED`.
pub data Round : Type 0 where
  timed_out ends bad_read : Round
  event : EventDetail → Round

abbrev pub error_code_of : ℕ → ℤ
error_code_of err = if err == 0 then negsuc 0 else pos err

unfoldable pub failed_round : Completion → Option Overlapped → Round
failed_round c none = timed_out
failed_round c (some o) =
    if c.completion_key == 0
    then timed_out
    else event (record {
      ptr = c.completion_key;
      event_type = o.event_type;
      error_code = error_code_of c.last_error;
      transferred = c.transferred;
      handle_id = 0;
      address = o.address;
    })

unfoldable pub good_round : Completion → Option Overlapped → Round
good_round c none = bad_read
good_round c (some o) =
    if o.is_exit
    then ends
    else event (record {
      ptr = c.completion_key;
      event_type = o.event_type;
      error_code = pos 0;
      transferred = c.transferred;
      handle_id = o.handle_id;
      address = o.address;
    })

unfoldable pub work_round : Completion → Round
unfolding failed_round good_round
work_round c = if c.ret then good_round c c.overlapped else failed_round c c.overlapped

-- `IocpSupplementInfo`
pub record Info : Type 0 where
  pub completion_key : ℕ
  pub service : ℕ
  pub event_types : ℕ

-- `_interesting_event_services`, by socket.
abbrev pub Services : Type 0
Services = List (ℕ × Info)

-- `IocpThreadAdaptor`, with the `_shutdown` of its thread.
pub record Adaptor : Type 0 where
  pub services : Services
  pub timeout_services : List ℕ
  pub is_shut : Bool

abbrev pub new_adaptor : Adaptor
new_adaptor = record { services = []; timeout_services = []; is_shut = true }

unfoldable pub find_info : ℕ → Services → Option Info
find_info sock [] = none
find_info sock ((s, i) ∷ m) = if s == sock then some i else find_info sock m

-- `map[sock] = info` and `erase`.
unfoldable pub set_info : ℕ → Info → Services → Services
set_info sock i [] = (sock, i) ∷ []
set_info sock i ((s, j) ∷ m) = if s == sock then (s, i) ∷ m else (s, j) ∷ set_info sock i m

unfoldable pub erase_info : ℕ → Services → Services
erase_info sock [] = []
erase_info sock ((s, j) ∷ m) =
    let rest = erase_info sock m in if s == sock then rest else (s, j) ∷ rest

abbrev pub info_of : (key service type : ℕ) → Info
info_of key service type = record { completion_key = key; service = service; event_types = type }

-- `Add` and `Modify`; whether the completion port took the socket is the system's answer.
unfoldable pub add : (sock key type service : ℕ) → Adaptor → Adaptor
unfolding set_info
add sock key type service a = record a {
  services = set_info sock (info_of key service type) a.services;
}

-- The complement of `type` in 32 bits.
abbrev pub without_events : ℕ → Info → Info
without_events type i = record i { event_types = bit_and i.event_types (2 ^ 32 - 1 - type) }

unfoldable pub delete_found : (sock type : ℕ) → Option Info → Adaptor → Adaptor
unfolding set_info erase_info
delete_found sock type none a = a
delete_found sock type (some i) a =
    if type == 0
    then record a { services = erase_info sock a.services }
    else record a { services = set_info sock (without_events type i) a.services }

-- `Delete`
unfoldable pub delete : (sock type : ℕ) → Adaptor → Adaptor
unfolding delete_found find_info
delete sock type a = delete_found sock type (find_info sock a.services) a

-- `FindEventService`: the service, and the event that it is given.
abbrev pub in_range : ℕ → Bool
in_range type = not (ltb type error_event || ltb max_event_value type)

unfoldable pub service_for : EventDetail → Option Info → Option (ℕ × EventDetail)
service_for d none = none
service_for d (some i) = some (
  i.service,
  record d {
    ptr = i.completion_key;
    event_type = if in_range d.event_type then d.event_type else bit_or i.event_types error_event;
  },
)

unfoldable pub find_event_service : EventDetail → Adaptor → Option (ℕ × EventDetail)
unfolding service_for find_info
find_event_service d a = service_for d (find_info d.ptr a.services)

-- `OnEventProcess` of the adaptor behind a round of the thread.
unfoldable pub routed : Adaptor → Round → Option (ℕ × EventDetail)
unfolding find_event_service
routed a timed_out = none
routed a ends = none
routed a bad_read = none
routed a (event d) = find_event_service d a

unfoldable pub route : Completion → Adaptor → Option (ℕ × EventDetail)
unfolding work_round routed
route c a = routed a (work_round c)

-- `EnableTimeoutCheck`, on a set of services.
unfoldable pub drop_service : ℕ → List ℕ → List ℕ
drop_service s [] = []
drop_service s (x ∷ xs) = let rest = drop_service s xs in if s == x then rest else x ∷ rest

unfoldable pub enable_timeout_check : (service : ℕ) → Bool → Adaptor → Adaptor
unfolding drop_service
enable_timeout_check service on a =
    let others = drop_service service a.timeout_services in
    record a { timeout_services = if on then service ∷ others else others }

-- A polling thread, and what all of them share: `iocp_thread_count`, and the adaptor.
pub record PollingThread : Type 0 where
  pub service : ℕ
  pub instance_id : ℕ

pub record Shared : Type 0 where
  pub count : ℕ
  pub adaptor : Adaptor

-- The constructor: the first one makes the adaptor.
unfoldable pub new_thread : (service : ℕ) → Shared → PollingThread × Shared
new_thread service g = (
  record { service = service; instance_id = g.count + 1 },
  record { count = g.count + 1; adaptor = if g.count == 0 then new_adaptor else g.adaptor },
)

-- `Init` of the adaptor: `creates` and `runs` say whether the port and a thread could be had.
unfoldable pub init_adaptor : (creates runs : Bool) → Adaptor → Adaptor × Bool
init_adaptor creates runs a =
    if a.is_shut
    then (if creates then (record a { is_shut = false }, runs) else (a, false))
    else (a, true)

unfoldable pub init_thread : (creates runs : Bool) → PollingThread → Shared → Shared × Bool
unfolding init_adaptor
init_thread creates runs p g =
    let r = init_adaptor creates runs g.adaptor in
    if p.instance_id == 1 then (record g { adaptor = r.0 }, r.1) else (g, true)

-- `Shutdown`: only the first one shuts the adaptor down.
unfoldable pub shutdown_thread : PollingThread → Shared → PollingThread × Shared
shutdown_thread p g = (
  record p { instance_id = 0 },
  (if p.instance_id == 1 then record g { adaptor = record (g.adaptor) { is_shut = true } } else g),
)

-- The destructor.
unfoldable pub destroy_thread : PollingThread → Shared → Shared
unfolding shutdown_thread
destroy_thread p g = let g' = (shutdown_thread p g).1 in record g' { count = g'.count - 1 }

-- `Add`, `Modify` and `Delete`, which do nothing behind `Shutdown`.
unfoldable pub add_socket : (sock key type : ℕ) → PollingThread → Shared → Shared
unfolding add
add_socket sock key type p g =
    if p.instance_id == 0 then g else record g { adaptor = add sock key type p.service g.adaptor }

unfoldable pub delete_socket : (sock type : ℕ) → PollingThread → Shared → Shared
unfolding delete
delete_socket sock type p g =
    if p.instance_id == 0 then g else record g { adaptor = delete sock type g.adaptor }
