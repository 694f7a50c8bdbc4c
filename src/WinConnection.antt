-- ===== src/WinConnection.antt =====
-- src/windows/connection.cc: one connection of a container on Windows, where sends and receives are
-- posted and their completions come as events. The calls of the system are parameters: `posts` says
-- whether a posted call succeeds or is pending. What is asked of the system and the service is returned
-- as a list of requests, in order. The parser is the one of Protocol, which is the same code here.
pub mod Gather
pub mod Stream
pub mod Receiving
use raptor_lite.Common.{
  ℕ, zero, suc, ◌+◌, Bool, true, false, ◌||◌, Option, none, some, List, [], ◌∷◌, ◌++◌, map, ltb,
  leb, ◌==◌, if◌then◌else◌, length,
}
use raptor_lite.Common.Int.{ℤ}
use raptor_lite.Words.{u32, u64}
use raptor_lite.Slice.{Slice, from_ptr, to_string, size}
use raptor_lite.SliceBuffer.{
  SliceBuffer, empty_buffer, add_slice, clear_buffer, is_empty, move_header,
}
use raptor_lite.Protocol.{Parsed, parsed, protocol_error, broken, out_of_fuel, parsing_protocol}
use raptor_lite.Endpoint.{Endpoint, closed_fd, is_online}
use raptor_lite.Connection.{Event, Recv, got, peer_closed, try_again, recv_failed, recv_space}

-- `PollingThread::Add` and `Delete`, the shutdown of a socket, `WSASend` of the bytes of its buffers,
-- the empty `WSARecv`, and the two calls of the service.
pub data Request : Type 0 where
  poll_add : (fd cid : ℕ) → Request
  poll_delete close_socket wsa_recv : (fd : ℕ) → Request
  wsa_send : (fd : ℕ) (buffers : List (List ℕ)) → Request
  data_received : Slice → Request
  told_closed : Event → Request

pub record WinConnection : Type 0 where
  pub endpoint : Endpoint
  pub rcv_buffer : SliceBuffer
  pub snd_buffer : SliceBuffer
  pub handle_id : ℕ
  pub send_pending : Bool
  pub proto : Option (List ℕ → ℤ)

-- The constructor takes its handle from the global counter, and leaves the counter behind.
unfoldable pub open_connection : ℕ → Endpoint → WinConnection × ℕ
open_connection counter ep = (
  record {
    endpoint = ep;
    rcv_buffer = empty_buffer;
    snd_buffer = empty_buffer;
    handle_id = counter;
    send_pending = false;
    proto = none;
  },
  u32 (counter + 1),
)

unfoldable pub choose_protocol : WinConnection → Option (List ℕ → ℤ) → WinConnection
choose_protocol c p = record c { proto = p }

-- `AsyncRecv`
unfoldable pub async_recv : Bool → WinConnection → List Request × Bool
async_recv posts c = (wsa_recv c.endpoint.fd ∷ [], posts)

-- `Init`
unfoldable pub start : Bool → WinConnection → WinConnection × List Request × Bool
unfolding async_recv
start posts c = (
  record c { send_pending = false },
  poll_add c.endpoint.fd c.endpoint.connection_id ∷ (async_recv posts c).0,
  (async_recv posts c).1,
)

-- `Shutdown`
unfoldable pub stop : WinConnection → Bool → Event → WinConnection × List Request
stop c notify ev =
    if is_online c.endpoint
    then (
      record c {
        endpoint = record (c.endpoint) { fd = closed_fd };
        send_pending = false;
        rcv_buffer = clear_buffer c.rcv_buffer;
        snd_buffer = clear_buffer c.snd_buffer;
      },
      poll_delete c.endpoint.fd
          ∷ close_socket c.endpoint.fd
          ∷ (if notify then told_closed ev ∷ [] else []),
    )
    else (c, [])

-- `MAX_PACKAGE_SIZE` and `MAX_WSABUF_COUNT`
abbrev pub max_package_size : ℕ
max_package_size = 65535

abbrev pub max_wsabuf_count : ℕ
max_wsabuf_count = 16

-- The slices that `ForEachSlice` puts into the buffers of `AsyncSend`.
unfoldable pub gather : (counter prepare_send_size : ℕ) → List Slice → List Slice
gather counter prepared [] = []
gather counter prepared (s ∷ vs) =
    let rest = gather (suc counter) (u64 (prepared + size s)) vs in
    if leb max_wsabuf_count counter
    then []
    else if ltb max_package_size (u64 (prepared + size s))
    then []
    else s ∷ rest

-- `AsyncSend`
unfoldable pub async_send :
    (List (List ℕ) → Bool) → WinConnection → WinConnection × List Request × Bool
unfolding gather
async_send posts c =
    if is_empty c.snd_buffer || c.send_pending
    then (c, [], true)
    else let buffers = map to_string (gather 0 0 c.snd_buffer.vs) in
      (
        record c { send_pending = posts buffers },
        wsa_send c.endpoint.fd buffers ∷ [],
        posts buffers,
      )

-- `SendMsg`
unfoldable pub post_msg :
    (List (List ℕ) → Bool) → WinConnection → Slice → WinConnection × List Request × Bool
unfolding async_send
post_msg posts c s =
    if is_online c.endpoint
    then async_send posts (record c { snd_buffer = add_slice c.snd_buffer s })
    else (c, [], false)

unfoldable pub sent_on :
    (List (List ℕ) → Bool)
    → WinConnection
    → Option (Bool × SliceBuffer)
    → Option (WinConnection × List Request × Bool)
unfolding async_send
sent_on posts c none = none
sent_on posts c (some (_, b)) =
    let c' = record c { send_pending = false; snd_buffer = b } in
    if is_empty b then some (c', [], true) else some (async_send posts c')

-- `OnSendEvent`, which is also `DoSendEvent`: the Boolean is RAPTOR_ERROR_NONE. `none` is a failed
-- assertion.
unfoldable pub on_sent :
    (List (List ℕ) → Bool)
    → WinConnection
    → (transferred handle : ℕ) → Option (WinConnection × List Request × Bool)
unfolding sent_on
on_sent posts c transferred handle =
    if c.handle_id == handle
    then (if transferred == 0
        then some (c, [], false)
        else sent_on posts c (move_header c.snd_buffer transferred))
    else some (c, [], true)

-- How the loop of `OnRecvEvent` is left: at its end, where `AsyncRecv` follows; at a read that would
-- block, which returns true; or with false.
pub data Leave : Type 0 where
  at_end would_block failed : Leave

pub data WinRun : Type 0 where
  left : Leave → List Slice → SliceBuffer → WinRun
  ran_out faulted_in hung_in : WinRun

abbrev pub handing : List Slice → WinRun → WinRun
handing ds (left how es b) = left how (ds ++ es) b
handing ds ran_out = ran_out
handing ds faulted_in = faulted_in
handing ds hung_in = hung_in

unfoldable pub parsed_on : (SliceBuffer → WinRun) → Parsed → WinRun
parsed_on again (parsed ds b) = handing ds (again b)
parsed_on again (protocol_error ds b) = left failed ds b
parsed_on again broken = faulted_in
parsed_on again (out_of_fuel ds b) = hung_in

-- `ReadSliceFromRecvBuffer` and `ParsingProtocol`, which are the same text as in src/linux/connection.cc.
abbrev pub parsing_packets : (List ℕ → ℤ) → ℕ → SliceBuffer → Parsed
parsing_packets check fuel b = parsing_protocol check fuel b

-- What the loop does with a slice that was read. The parser has one round for each byte, and one
-- more.
unfoldable pub read_on : Option (List ℕ → ℤ) → (SliceBuffer → WinRun) → SliceBuffer → Slice → WinRun
unfolding parsed_on
read_on none again b s = handing (s ∷ []) (again b)
read_on (some check) again b s =
    let b' = add_slice b s in parsed_on again (parsing_packets check (suc b'.len) b')

-- The test `recv_bytes == unused_space` behind a read of `n` bytes.
abbrev pub more_after : ℕ → (SliceBuffer → WinRun) → SliceBuffer → WinRun
more_after n rest b = if n == recv_space then rest b else left at_end [] b

-- The loop of `OnRecvEvent` over the results of its calls of `::recv`.
unfoldable pub read_loop : Option (List ℕ → ℤ) → List Recv → SliceBuffer → WinRun
unfolding read_on
read_loop proto [] b = ran_out
read_loop proto (peer_closed ∷ rs) b = left failed [] b
read_loop proto (try_again ∷ rs) b = left would_block [] b
read_loop proto (recv_failed ∷ rs) b = left failed [] b
read_loop proto (got xs ∷ rs) b =
    read_on proto (more_after (length xs) (read_loop proto rs)) b (from_ptr (some xs) (length xs))

unfoldable pub received_on :
    Bool → WinConnection → WinRun → Option (WinConnection × List Request × Bool)
unfolding async_recv
received_on posts c (left at_end ds b) = some (
  record c { rcv_buffer = b },
  map data_received ds ++ (async_recv posts c).0,
  (async_recv posts c).1,
)
received_on posts c (left would_block ds b) =
    some (record c { rcv_buffer = b }, map data_received ds, true)
received_on posts c (left failed ds b) =
    some (record c { rcv_buffer = b }, map data_received ds, false)
received_on posts c ran_out = none
received_on posts c faulted_in = none
received_on posts c hung_in = none

-- `OnRecvEvent`, which is also `DoRecvEvent`; `none` is a run that does not return.
unfoldable pub on_received :
    Bool → WinConnection → List Recv → (handle : ℕ) → Option (WinConnection × List Request × Bool)
unfolding read_loop received_on
on_received posts c rs handle =
    if handle == c.handle_id
    then received_on posts c (read_loop c.proto rs c.rcv_buffer)
    else some (c, [], true)
