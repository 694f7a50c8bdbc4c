-- ===== src/Endpoint.antt =====
-- src/common/endpoint_impl.cc: the state of an endpoint. The socket addresses are only copied and
-- printed, and are left out.
use raptor_lite.Common.{ℕ, ◌-◌, ◌^◌, Bool, true, false, ◌&&◌, not, ltb, ◌==◌}
use raptor_lite.Cid.{invalid_connection_id}

-- `uint64_t(~0)`
abbrev pub closed_fd : ℕ
closed_fd = 2 ^ 64 - 1

-- `attached` says that `_container` is set.
pub record Endpoint : Type 0 where
  pub fd : ℕ
  pub connection_id : ℕ
  pub attached : Bool
  pub listen_port : ℕ
  pub ext_info : ℕ

-- The constructor.
unfoldable pub new_endpoint : ℕ → Endpoint
new_endpoint fd = record {
  fd = fd;
  connection_id = invalid_connection_id;
  attached = false;
  listen_port = 0;
  ext_info = 0;
}

unfoldable pub set_connection : Endpoint → ℕ → Endpoint
set_connection ep cid = record ep { connection_id = cid }

unfoldable pub set_container : Endpoint → Endpoint
set_container ep = record ep { attached = true }

unfoldable pub set_listen_port : Endpoint → ℕ → Endpoint
set_listen_port ep port = record ep { listen_port = port }

pub set_ext_info : Endpoint → ℕ → Endpoint
set_ext_info ep info = record ep { ext_info = info }

unfoldable pub is_online : Endpoint → Bool
is_online ep = not (ep.fd == closed_fd) && ltb 0 ep.fd
