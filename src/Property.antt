-- ===== src/Property.antt =====
-- include/raptor-lite/impl/property.h: a table of named values, with 64-bit words as values; and
-- the options that src/surface/container.cc reads from it.
pub mod Values
use Prim.Native.String.{String}
use text.Mathlib.Text.{◌==◌}
use raptor_lite.Common.{
  ℕ, zero, suc, ◌+◌, ◌-◌, ◌%◌, ◌^◌, Bool, true, false, not, Option, none, some, List, [], ◌∷◌, ltb,
  if◌then◌else◌,
}
use raptor_lite.Common.Int.{ℤ, pos, negsuc}
use raptor_lite.Words.{u32, u64}

-- `_tbl`; a key stands in it once, but where it stands is not looked at.
abbrev pub Property : Type 0
Property = List (String × ℕ)

-- `_tbl.find(key)`
unfoldable pub find_entry : String → Property → Option ℕ
find_entry key [] = none
find_entry key ((k, v) ∷ p) = let rest = find_entry key p in if k == key then some v else rest

-- `_tbl[key] = value`
unfoldable pub set_entry : String → ℕ → Property → Property
set_entry key value [] = (key, value) ∷ []
set_entry key value ((k, v) ∷ p) =
    let rest = set_entry key value p in if k == key then (key, value) ∷ p else (k, v) ∷ rest

-- The constructors of `PropertyEntry`: `uintptr_t(v ? 1 : 0)` and `uintptr_t(v)` of an `int32_t`.
abbrev pub of_bool : Bool → ℕ
of_bool v = if v then 1 else 0

abbrev pub of_int32 : ℤ → ℕ
of_int32 (pos n) = u64 n
of_int32 (negsuc n) = u64 (2 ^ 64 - 1 - n)

-- `static_cast<bool>` and `static_cast<int>` of a value.
abbrev pub to_bool : ℕ → Bool
to_bool zero = false
to_bool (suc n) = true

abbrev pub to_int32 : ℕ → ℤ
to_int32 v = if ltb (u32 v) (2 ^ 31) then pos (u32 v) else negsuc (2 ^ 32 - 1 - u32 v)

-- `GetValue` and `CheckValue`, where `cast` is the `static_cast`; `CheckValue` returns false, and leaves
-- the variable as it is, at `none`.
module _ {A : Type 0} (cast : ℕ → A) where
  abbrev pub value_or : A → Option ℕ → A
  value_or default_value none = default_value
  value_or default_value (some v) = cast v

  unfoldable pub get_value : Property → String → A → A
  get_value p key default_value = value_or default_value (find_entry key p)

  abbrev pub cast_found : Option ℕ → Option A
  cast_found none = none
  cast_found (some v) = some (cast v)

  unfoldable pub check_value : Property → String → Option A
  check_value p key = cast_found (find_entry key p)

-- `Property(init_list)`, and `operator()` of a list.
unfoldable pub set_entries : List (String × ℕ) → Property → Property
set_entries [] p = p
set_entries ((k, v) ∷ es) p = set_entries es (set_entry k v p)

-- The conversion of an `int` to `size_t`.
abbrev pub to_size : ℤ → ℕ
to_size (pos n) = u64 n
to_size (negsuc n) = u64 (2 ^ 64 - 1 - n)

-- `ContainerImpl::Option`; a handler is its address, 0 for none.
pub record ContainerOption : Type 0 where
  pub mq_consumer_threads : ℕ
  pub recv_send_threads : ℕ
  pub default_container_size : ℕ
  pub max_container_size : ℕ
  pub connection_timeoutms : ℕ
  pub not_check_connection_timeout : Bool
  pub msg_handler : ℕ
  pub proto_handler : ℕ
  pub heartbeat_handler : ℕ
  pub closed_handler : ℕ
  pub notify_handler : ℕ

abbrev pub pointer : ℕ → ℕ
pointer v = u64 v

unfoldable pub options_of : Property → ContainerOption
unfolding get_value
options_of p = record {
  mq_consumer_threads = to_size (get_value to_int32 p "MQConsumerThreads" (pos 1));
  recv_send_threads = to_size (get_value to_int32 p "RecvSendThreads" (pos 1));
  default_container_size = to_size (get_value to_int32 p "DefaultContainerSize" (pos 256));
  max_container_size = to_size (get_value to_int32 p "MaxContainerSize" (pos 1048576));
  connection_timeoutms = to_size (get_value to_int32 p "ConnectionTimeoutMs" (pos 60000));
  not_check_connection_timeout = get_value to_bool p "NotCheckConnectionTimeout" false;
  msg_handler = get_value pointer p "MessageHandler" 0;
  proto_handler = get_value pointer p "ProtocolHandler" 0;
  heartbeat_handler = get_value pointer p "HeartbeatHandler" 0;
  closed_handler = get_value pointer p "EndpointClosedHandler" 0;
  notify_handler = get_value pointer p "EndpointNotifyHandler" 0;
}
