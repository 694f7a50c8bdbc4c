-- ===== src/Container/Stopping.antt =====
-- `Shutdown` of a container: its connections, its queue and its table.
use raptor_lite.Common.{◌≡◌, Option, none, some, List, [], ◌∷◌, ◌++◌, if◌then◌else◌}
use raptor_lite.Endpoint.{Endpoint, is_online}
use raptor_lite.Connection
use raptor_lite.Connection.{Connection, Effect, recv_delete, send_delete, socket_shutdown}
use raptor_lite.Container.{Container, Slot}

-- What a connection that is online asks of the pollers and its socket when it is shut down.
abbrev closing_of : Endpoint → List Effect
closing_of ep =
    if is_online ep then recv_delete ep.fd ∷ send_delete ep.fd ∷ socket_shutdown ep.fd ∷ [] else []

abbrev closing_at : Option Connection → List Effect
closing_at none = []
closing_at (some con) = closing_of con.endpoint

abbrev pub closings : List Slot → List Effect
closings [] = []
closings (s ∷ ss) = closing_at s.first ++ closings ss

abbrev logged : Container → List Effect → Container
logged c es = record c { log = c.log ++ es }

-- What `Shutdown` leaves of a container.
pub record Stopped (c d : Container) : Type 0 where
  pub table : d.mgr ≡ []
  pub deadlines : d.timeout_records ≡ []
  pub indices : d.free_index_list ≡ []
  pub messages : d.queue ≡ []
  pub uncounted : d.count ≡ 0
  pub shuts_all : d.log ≡ c.log ++ closings c.mgr
  pub same_timers : d.timers ≡ c.timers
