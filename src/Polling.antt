-- ===== src/Polling.antt =====
-- src/linux/epoll_thread.cc: how the events of one poll reach the container. The poller's answers are
-- arguments.
pub mod Handling
pub mod Rounds
use raptor_lite.Common.{ℕ, Bool, true, false, ◌||◌, Option, some, List, [], ◌∷◌, if◌then◌else◌}
use raptor_lite.Connection.{Recv, Sent}
use raptor_lite.Container.{Container}
use raptor_lite.Container.Calls.{EventDetail, and_then, on_event_process, on_timeout_check}

-- An `epoll_event`, with `errno` as it is when the event is read, and with what the socket answers if
-- it is read or written.
pub record PollEvent : Type 0 where
  pub ptr : ℕ
  pub err : Bool
  pub hup : Bool
  pub rdhup : Bool
  pub readable : Bool
  pub writable : Bool
  pub errno : ℕ
  pub arriving : List Recv
  pub leaving : ℕ → List ℕ → Sent

pub decode : PollEvent → EventDetail
decode ev =
    if ev.err || (ev.hup || ev.rdhup)
    then record {
      connection_id = ev.ptr;
      error_event = true;
      recv_event = false;
      send_event = false;
      error_code = ev.errno;
    }
    else record {
      connection_id = ev.ptr;
      error_event = false;
      recv_event = ev.readable;
      send_event = ev.writable;
      error_code = 0;
    }

-- The loop over the events of a poll, at the time `now`.
pub process_events : ℕ → List PollEvent → Container → Option Container
process_events now [] c = some c
process_events now (ev ∷ evs) c =
    and_then (process_events now evs)
      (on_event_process c (decode ev) ev.errno now ev.arriving ev.leaving)

-- One round of `DoWork`.
pub do_work : Bool → ℕ → List PollEvent → Container → Option Container
do_work enable_timeout_check now evs c =
    and_then (process_events now evs)
      (if enable_timeout_check then on_timeout_check c now else some c)
