-- ===== src/Connection/Closing.antt =====
-- `Shutdown` and `SendMsg` of a connection.
use raptor_lite.Common.{◌≡◌, refl, Bool, false, [], ◌∷◌, if◌then◌else◌, inl, inr, Bool-cases}
use raptor_lite.Slice.{Slice}
use raptor_lite.Endpoint.{Endpoint, is_online, closed_fd}
use raptor_lite.Connection.{
  Connection, Event, recv_delete, send_delete, socket_shutdown, on_closed, send_msg, shutdown,
}

closed_offline : (ep : Endpoint) → ep.fd ≡ closed_fd → is_online ep ≡ false
unfolding is_online
closed_offline ep e = rw e refl

pub shutdown_offline :
    (c : Connection) (notify : Bool) (ev : Event)
    → is_online c.endpoint ≡ false
    → shutdown c notify ev ≡ (c, [])
unfolding shutdown
shutdown_offline c notify ev down = rw (down, shutdown) refl

pub send_msg_offline :
    (c : Connection) (s : Slice) → is_online c.endpoint ≡ false → send_msg c s ≡ (c, [], false)
unfolding send_msg
send_msg_offline c s down = rw (down, send_msg) refl

pub shutdown_ends_offline :
    (c : Connection) (notify : Bool) (ev : Event)
    → is_online (shutdown c notify ev).0.endpoint ≡ false
unfolding shutdown
shutdown_ends_offline c notify ev = elim (Bool-cases (is_online c.endpoint)) [
  | inl up ↦ rw (up, shutdown) (closed_offline (record (c.endpoint) { fd = closed_fd }) refl)
  | inr down ↦ rw (down, shutdown) down
]

-- `Shutdown` of an online connection unregisters it from both pollers, shuts its socket down and
-- tells the service if asked to, once and in that order; on a connection that is offline it does
-- nothing at all.
pub shutdown_effects :
    (c : Connection) (notify : Bool) (ev : Event)
    → (if is_online c.endpoint
        then (shutdown c notify ev).1
          ≡ recv_delete c.endpoint.fd
            ∷ send_delete c.endpoint.fd
            ∷ socket_shutdown c.endpoint.fd
            ∷ (if notify then on_closed ev ∷ [] else [])
        else shutdown c notify ev ≡ (c, []))
unfolding shutdown
shutdown_effects c notify ev = elim (Bool-cases (is_online c.endpoint)) [
  | inl up ↦ rw (up, shutdown) refl
  | inr down ↦ rw (down, shutdown) refl
]

-- After a `Shutdown`, whatever the state before it: the connection is offline, a further `Shutdown`
-- has no effect and tells nobody, and `SendMsg` is refused and buffers nothing.
pub shutdown-shutdown :
    (c : Connection) (notify again : Bool) (ev ev' : Event) (s : Slice)
    → let d = (shutdown c notify ev).0 in
      (is_online d.endpoint ≡ false)
      × (shutdown d again ev' ≡ (d, []))
      × (send_msg d s ≡ (d, [], false))
shutdown-shutdown c notify again ev ev' s =
    let down = shutdown_ends_offline c notify ev in
    (down, shutdown_offline _ again ev' down, send_msg_offline _ s down)
