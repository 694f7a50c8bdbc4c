-- ===== src/Surface.antt =====
-- src/surface/container.cc: the making of a container from its properties, with `Init` of
-- src/common/container_impl.cc. The threads that the system gives and the handlers of the application
-- are parameters.
pub mod Creating
use raptor_lite.Common.{
  ℕ, zero, suc, ◌+◌, ◌/◌, Bool, true, false, not, ◌&&◌, Option, none, some, List, ltb, ◌==◌,
  if◌then◌else◌,
}
use raptor_lite.Common.Int.{ℤ}
use raptor_lite.Container.{Settings, Container}
use raptor_lite.Container.Starting.{new_container, init_table}
use raptor_lite.Property.{Property, ContainerOption, options_of, to_bool, pointer, get_value}

-- The handlers at their addresses: `OnCheckPackageLength`, and `GetHeartbeatInterval`.
pub record App : Type 0 where
  pub check : ℕ → List ℕ → ℤ
  pub interval : ℕ → ℕ

abbrev pub at_address {ℓ} : {A : Type ℓ} → ℕ → A → Option A
at_address zero a = none
at_address (suc n) a = some a

unfoldable pub settings_of : App → ContainerOption → Settings
settings_of app o = record {
  default_container_size = o.default_container_size;
  max_container_size = o.max_container_size;
  connection_timeoutms = o.connection_timeoutms;
  proto = at_address o.proto_handler (app.check o.proto_handler);
  heartbeat = at_address o.heartbeat_handler (app.interval o.heartbeat_handler);
  closed_handler = to_bool o.closed_handler;
  notify_handler = to_bool o.notify_handler;
}

-- Which threads can be had: the two pollers, with their number of threads, the timer, and the
-- `i`-th thread for messages.
pub record Threads : Type 0 where
  pub poll : ℕ → Bool
  pub back : ℕ → Bool
  pub timer : Bool
  pub mq : ℕ → Bool

pub data InitError : Type 0 where
  no_poll no_back no_timer no_mq : InitError

pub data InitResult : Type 0 where
  init_error : InitError → InitResult
  ready : Container → InitResult

-- `real_thread`
unfoldable pub real_threads : ContainerOption → ℕ
real_threads o = if o.recv_send_threads / 2 == 0 then 1 else o.recv_send_threads / 2

unfoldable pub needs_timer : App → ContainerOption → Bool
needs_timer app o = to_bool o.heartbeat_handler && ltb 0 (app.interval o.heartbeat_handler)

-- The loop that makes the threads for messages, and stops at the first that cannot be had.
unfoldable pub running_threads : (ℕ → Bool) → (left i : ℕ) → ℕ
running_threads mq zero i = 0
running_threads mq (suc k) i =
    let rest = running_threads mq k (i + 1) in if mq i then suc rest else 0

-- `ContainerImpl::Init` of a new container, on Linux.
unfoldable pub init_container : App → Threads → ContainerOption → (counter now : ℕ) → InitResult
unfolding settings_of real_threads needs_timer running_threads
init_container app threads o counter now =
    if not (threads.poll (real_threads o))
    then init_error no_poll
    else if not (threads.back (real_threads o))
    then init_error no_back
    else if needs_timer app o && not threads.timer
    then init_error no_timer
    else if running_threads threads.mq o.mq_consumer_threads 0 == 0
    then init_error no_mq
    else ready (init_table (new_container (settings_of app o) counter (needs_timer app o)) now)

-- What `CreateContainer` returns: its own error, before `*out` is written; an error of `Init`, with a
-- null in `*out`; or no error, with the container in it.
pub data CreateResult : Type 0 where
  missing_message_handler : CreateResult
  not_created : InitError → CreateResult
  created : Container → CreateResult

abbrev pub create_result : InitResult → CreateResult
create_result (init_error e) = not_created e
create_result (ready c) = created c

unfoldable pub create_container : App → Threads → Property → (counter now : ℕ) → CreateResult
unfolding init_container
create_container app threads p counter now =
    if to_bool (get_value pointer p "MessageHandler" 0)
    then create_result (init_container app threads (options_of p) counter now)
    else missing_message_handler
