-- ===== src/Container/Serving.antt =====
-- The messages and requests of a connection's effects, and a connection that is shut down.
use raptor_lite.Common.{
  ℕ, ◌<◌, ◌≡◌, refl, ap, ◌∙◌, Bool, true, false, Option, none, some, List, [], ◌∷◌, arith, ◌==◌,
  if◌then◌else◌, length, get_elem?, inl, inr, Option-cases,
}
use raptor_lite.Endpoint.{Endpoint}
use raptor_lite.Connection
use raptor_lite.Connection.{
  Connection, Event, Effect, on_data_received, on_closed, recv_add, send_add, recv_modify,
  send_modify, recv_delete, send_delete, socket_shutdown, connection_timeout,
}
use raptor_lite.Container.{
  Container, Message, close_event, Slot, get_connection, connection_of, serve, serve_one, on_data,
  on_closed_event, post, delete_connection,
}
use raptor_lite.Container.Timeouts.{find_index, erase}
use raptor_lite.Container.Table.{Inv, lt_of_get_elem?}
use raptor_lite.Container.Deleting.{delete_connection-Deleted}
use raptor_lite.Container.Admission.{holder, first_of}
use raptor_lite.Container.Calls.{shut_down}

-- What the effects of a connection change: messages are queued, and requests are noted.
abbrev pub told : Container → List Message → ℕ → List Effect → Container
told c q n l = record c { queue = q; count = n; log = l }

-- `d` is `c` but for the messages and the requests.
pub record Told (c d : Container) : Type 0 where
  pub messages : List Message
  pub number : ℕ
  pub requests : List Effect
  pub same : d ≡ told c messages number requests

Told-self : (c : Container) → Told c c
Told-self c = record { messages = c.queue; number = c.count; requests = c.log; same = refl }

Told-trans : (c d e : Container) → Told c d → Told d e → Told c e
Told-trans c d e a b = record {
  messages = b.messages;
  number = b.number;
  requests = b.requests;
  same = b.same ∙ ap (λ (x : Container). told x b.messages b.number b.requests) a.same;
}

Told-if : (b : Bool) (c d : Container) → Told c d → Told c (if b then d else c)
Told-if true c d t = t
Told-if false c d t = Told-self c

Told-one : (c : Container) (ep : Endpoint) (e : Effect) → Told c (serve_one c ep e)
unfolding serve_one on_data on_closed_event post
Told-one c ep (on_data_received s) = record { messages = _; number = _; requests = _; same = refl }
Told-one c ep (on_closed ev) =
    Told-if c.closed_handler c (post c (close_event ep ev))
      (record { messages = _; number = _; requests = _; same = refl })
Told-one c ep (recv_add fd cid) = record { messages = _; number = _; requests = _; same = refl }
Told-one c ep (send_add fd cid) = record { messages = _; number = _; requests = _; same = refl }
Told-one c ep (recv_modify fd cid) = record { messages = _; number = _; requests = _; same = refl }
Told-one c ep (send_modify fd cid) = record { messages = _; number = _; requests = _; same = refl }
Told-one c ep (recv_delete fd) = record { messages = _; number = _; requests = _; same = refl }
Told-one c ep (send_delete fd) = record { messages = _; number = _; requests = _; same = refl }
Told-one c ep (socket_shutdown fd) = record { messages = _; number = _; requests = _; same = refl }

pub serve-Told : (c : Container) (ep : Endpoint) (es : List Effect) → Told c (serve c ep es)
unfolding serve
serve-Told c ep [] = Told-self c
serve-Told c ep (e ∷ es) =
    Told-trans c (serve_one c ep e) (serve (serve_one c ep e) ep es) (Told-one c ep e)
      (serve-Told (serve_one c ep e) ep es)

pub told-Inv :
    (c : Container) (q : List Message) (n : ℕ) (l : List Effect) → Inv c → Inv (told c q n l)
told-Inv c q n l v = record {
  free_vacant = v.free_vacant;
  one_deadline = v.one_deadline;
  known = v.known;
  sorted = v.sorted;
  bounded = v.bounded;
  small = v.small;
  ids = v.ids;
}

-- What `Shutdown` and `DeleteConnection` leave of a connection at an index.
pub record Ended (c : Container) (i : ℕ) (con : Connection) (notify : Bool) (ev : Event)
    : Type 0 where
  pub result : Container
  pub shuts : shut_down c i con notify ev ≡ some result
  pub kept : Inv result
  pub gone : holder result i ≡ none
  pub vacated : get_connection result i ≡ some none
  pub limits : result.settings ≡ c.settings
  pub magic : result.magic_number ≡ c.magic_number
  pub others : (j : ℕ) → (j == i) ≡ false → holder result j ≡ holder c j
  pub slots : (j : ℕ) → (j == i) ≡ false → get_connection result j ≡ get_connection c j
  pub records :
      (t : ℕ)
      → find_index i c.timeout_records ≡ some (t, i)
      → result.timeout_records ≡ erase (t, i) c.timeout_records

pub there :
    (c : Container) (i : ℕ) (con : Connection)
    → get_connection c i ≡ some (some con)
    → i < length c.mgr
there c i con h = elim (Option-cases (get_elem? c.mgr i)) [
  | inl e ↦ absurd (grind (arith, ap connection_of e, h))
  | inr (s, e) ↦ lt_of_get_elem? c.mgr i s e
]

pub no_holder : (o : Option Slot) → connection_of o ≡ some none → first_of o ≡ none
no_holder none h = refl
no_holder (some s) h = grind (arith, h)

pub shut_down-Ended :
    (c : Container) (i : ℕ) (con : Connection) (notify : Bool) (ev : Event)
    → Inv c
    → get_connection c i ≡ some (some con)
    → Ended c i con notify ev
unfolding shut_down
shut_down-Ended c i con notify ev v h =
    let es = (Connection.shutdown con notify ev).1 in
    let s = serve-Told c con.endpoint es in
    let w = told-Inv c s.messages s.number s.requests v in
    let d =
      delete_connection-Deleted (told c s.messages s.number s.requests) i w (there c i con h) in
    record {
      result = d.result;
      shuts = ap (λ (x : Container). delete_connection x i) s.same ∙ d.deletes;
      kept = d.kept;
      gone = no_holder (get_elem? d.result.mgr i) d.gone;
      vacated = d.gone;
      limits = d.limits;
      magic = d.magic;
      others = λ j ne. ap first_of (d.others j ne);
      slots = λ j ne. ap connection_of (d.others j ne);
      records = d.records;
    }
