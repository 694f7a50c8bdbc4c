-- ===== src/Connection.antt =====
-- src/linux/connection.cc: one connection of a container. The socket calls are parameters: their
-- results are arguments, and what the code asks of the poller, the socket and the service is
-- returned as a list of effects, in order.
pub mod Sending
pub mod Receiving
pub mod Closing
use raptor_lite.Common.{
  ℕ, zero, suc, ◌+◌, ◌%◌, ◌^◌, Bool, true, false, Option, none, some, List, [], ◌∷◌, ◌++◌, map,
  ◌==◌, if◌then◌else◌, length, take,
}
use raptor_lite.Common.Int.{ℤ}
use raptor_lite.Words.{u32}
use raptor_lite.Slice.{Slice, from_ptr, to_string}
use raptor_lite.SliceBuffer.{
  SliceBuffer, empty_buffer, add_slice, clear_buffer, is_empty, front, move_header, slice_count,
}
use raptor_lite.Protocol.{Parsed, parsed, protocol_error, broken, out_of_fuel, parsing_protocol}
use raptor_lite.Endpoint.{Endpoint, closed_fd, is_online}

-- `EventType`, with the error code that `_desc` carries.
pub data Event : Type 0 where
  manual_shutdown : Event
  socket_error : ℕ → Event
  connection_timeout : Event

-- `PollingThread::Add`, `Modify` and `Delete` of the receiving and the sending poller, with the
-- descriptor and the connection id; the shutdown of a socket; the two calls of the service.
pub data Effect : Type 0 where
  recv_add send_add recv_modify send_modify : (fd cid : ℕ) → Effect
  recv_delete send_delete socket_shutdown : (fd : ℕ) → Effect
  on_data_received : Slice → Effect
  on_closed : Event → Effect

-- `proto` is the application's check, `none` if no protocol handler is set.
pub record Connection : Type 0 where
  pub endpoint : Endpoint
  pub rcv_buffer : SliceBuffer
  pub snd_buffer : SliceBuffer
  pub handle_id : ℕ
  pub proto : Option (List ℕ → ℤ)

-- The constructor takes its handle from the global counter, and leaves the counter behind.
unfoldable pub new_connection : ℕ → Endpoint → Connection × ℕ
new_connection counter ep = (
  record {
    endpoint = ep;
    rcv_buffer = empty_buffer;
    snd_buffer = empty_buffer;
    handle_id = counter;
    proto = none;
  },
  u32 (counter + 1),
)

unfoldable pub set_protocol : Connection → Option (List ℕ → ℤ) → Connection
set_protocol c p = record c { proto = p }

pub init : Connection → List Effect
init c =
    recv_add c.endpoint.fd c.endpoint.connection_id
    ∷ send_add c.endpoint.fd c.endpoint.connection_id
    ∷ []

pub send_msg : Connection → Slice → Connection × List Effect × Bool
send_msg c s =
    if is_online c.endpoint
    then (
      record c { snd_buffer = add_slice c.snd_buffer s },
      send_modify c.endpoint.fd c.endpoint.connection_id ∷ [],
      true,
    )
    else (c, [], false)

unfoldable pub shutdown : Connection → Bool → Event → Connection × List Effect
shutdown c notify ev =
    if is_online c.endpoint
    then (
      record c {
        endpoint = record (c.endpoint) { fd = closed_fd };
        rcv_buffer = clear_buffer c.rcv_buffer;
        snd_buffer = clear_buffer c.snd_buffer;
      },
      recv_delete c.endpoint.fd
          ∷ send_delete c.endpoint.fd
          ∷ socket_shutdown c.endpoint.fd
          ∷ (if notify then on_closed ev ∷ [] else []),
    )
    else (c, [])

-- The results of `::recv` into the buffer of 8192 bytes: bytes, 0 (closed by the peer), an `errno`
-- that asks for another try, another `errno`.
pub data Recv : Type 0 where
  got : List ℕ → Recv
  peer_closed try_again recv_failed : Recv

abbrev pub recv_space : ℕ
recv_space = 8192

-- `OnRecv` returns 0 (`true`) or -1, with the slices delivered and the receive buffer. The run is
-- `starved` where the list of results ends before the loop does, and `hung` where the parser does
-- not end.
pub data RecvRun : Type 0 where
  returned : Bool → List Slice → SliceBuffer → RecvRun
  starved faulted hung : RecvRun

abbrev pub delivering : List Slice → RecvRun → RecvRun
delivering ds (returned ok es b) = returned ok (ds ++ es) b
delivering ds starved = starved
delivering ds faulted = faulted
delivering ds hung = hung

-- What follows a call of the parser; `again` is the rest of the loop, from its test.
unfoldable pub after_parse : (SliceBuffer → RecvRun) → Parsed → RecvRun
after_parse again (parsed ds b) = delivering ds (again b)
after_parse again (protocol_error ds b) = returned false ds b
after_parse again broken = faulted
after_parse again (out_of_fuel ds b) = hung

-- What the loop does with a slice that was read. The parser has one round for each byte, and one
-- more.
unfoldable pub take_in :
    Option (List ℕ → ℤ) → (SliceBuffer → RecvRun) → SliceBuffer → Slice → RecvRun
take_in none again b s = delivering (s ∷ []) (again b)
take_in (some check) again b s =
    let b' = add_slice b s in after_parse again (parsing_protocol check (suc b'.len) b')

-- The test `recv_bytes == unused_space` behind a read of `n` bytes.
abbrev pub next_read : ℕ → (SliceBuffer → RecvRun) → SliceBuffer → RecvRun
next_read n rest b = if n == recv_space then rest b else returned true [] b

-- The loop of `OnRecv` over the results of its calls of `::recv`.
unfoldable pub recv_loop : Option (List ℕ → ℤ) → List Recv → SliceBuffer → RecvRun
recv_loop proto [] b = starved
recv_loop proto (peer_closed ∷ rs) b = returned false [] b
recv_loop proto (try_again ∷ rs) b = returned true [] b
recv_loop proto (recv_failed ∷ rs) b = returned false [] b
recv_loop proto (got xs ∷ rs) b =
    take_in proto (next_read (length xs) (recv_loop proto rs)) b (from_ptr (some xs) (length xs))

unfoldable pub on_recv : Connection → List Recv → RecvRun
on_recv c rs = recv_loop c.proto rs c.rcv_buffer

-- The result of `::send`: the number of bytes that the socket took, or an `errno` of either kind.
pub data Sent : Type 0 where
  sent : ℕ → Sent
  send_again send_failed : Sent

-- `OnSend` returns -1 (`true`: armed again by the caller) or 0, with the bytes that went out and
-- the send buffer.
pub data SendRun : Type 0 where
  stopped : Bool → List ℕ → SliceBuffer → SendRun
  send_faulted send_fuel : SendRun

abbrev pub wiring : List ℕ → SendRun → SendRun
wiring xs (stopped r ys b) = stopped r (xs ++ ys) b
wiring xs send_faulted = send_faulted
wiring xs send_fuel = send_fuel

moved_on : (SliceBuffer → SendRun) → Option (Bool × SliceBuffer) → SendRun
moved_on again none = send_faulted
moved_on again (some (_, b)) = if slice_count b == 0 then stopped false [] b else again b

-- What the loop does after a `::send` of the front slice `s`; `again` is the rest of the loop.
pub after_send : (SliceBuffer → SendRun) → SliceBuffer → Slice → Sent → SendRun
after_send again b s send_again = stopped true [] b
after_send again b s send_failed = stopped false [] b
after_send again b s (sent zero) = stopped false [] b
after_send again b s (sent (suc n)) =
    wiring (take (suc n) (to_string s)) (moved_on again (move_header b (suc n)))

sending : (SliceBuffer → SendRun) → SliceBuffer → (List ℕ → Sent) → Option Slice → SendRun
sending again b socket none = send_faulted
sending again b socket (some s) = after_send again b s (socket (to_string s))

-- The loop of `OnSend`; `socket i xs` is the result of its `i`-th call of `::send`, on the bytes
-- `xs`.
pub send_loop : (ℕ → List ℕ → Sent) → ℕ → ℕ → SliceBuffer → SendRun
send_loop socket zero i b = send_fuel
send_loop socket (suc k) i b = sending (send_loop socket k (i + 1)) b (socket i) (front b)

-- One round for each byte, and one more.
pub on_send : Connection → (ℕ → List ℕ → Sent) → SendRun
on_send c socket =
    if is_empty c.snd_buffer
    then stopped false [] c.snd_buffer
    else send_loop socket (suc c.snd_buffer.len) 0 c.snd_buffer

-- `DoRecvEvent` and `DoSendEvent`: the connection after, the effects, and whether the result is
-- RAPTOR_ERROR_NONE. `none` is a run that does not return.
unfoldable pub after_recv : Connection → RecvRun → Option (Connection × List Effect × Bool)
after_recv c (returned ok ds b) = some (
  record c { rcv_buffer = b },
  map on_data_received ds
      ++ (if ok then recv_modify c.endpoint.fd c.endpoint.connection_id ∷ [] else []),
  ok,
)
after_recv c starved = none
after_recv c faulted = none
after_recv c hung = none

unfoldable pub do_recv_event : Connection → List Recv → Option (Connection × List Effect × Bool)
unfolding after_recv
do_recv_event c rs = after_recv c (on_recv c rs)

after_sending : Connection → SendRun → Option (Connection × List Effect × Bool)
after_sending c (stopped again xs b) = some (
  record c { snd_buffer = b },
  (if again then send_modify c.endpoint.fd c.endpoint.connection_id ∷ [] else []),
  true,
)
after_sending c send_faulted = none
after_sending c send_fuel = none

pub do_send_event : Connection → (ℕ → List ℕ → Sent) → Option (Connection × List Effect × Bool)
unfolding after_sending
do_send_event c socket = after_sending c (on_send c socket)
