-- ===== src/WinPolling/Routing.antt =====
-- Which service a completion reaches, and what becomes of a `ConnectEx` that has failed.
use Prim.Native.Nat.{bit_and, bit_or}
use raptor_lite.Common.{
  ℕ, ◌≡◌, refl, ap, ◌∙◌, Bool, true, false, not, Option, none, some, List, [], ◌∷◌, ◌==◌, ==_self,
  if◌then◌else◌, inl, inr, Bool-cases, arith,
}
use raptor_lite.Common.Int.{pos}
use raptor_lite.Property.{Property}
use raptor_lite.Sockets.{Os, Trace}
use raptor_lite.Connector.{Notice, connected}
use raptor_lite.WinConnector
use raptor_lite.WinConnector.{WinConnector, completion_of, on_connect_event}
use raptor_lite.WinPolling.{
  error_event, connect_event, event, ends, Overlapped, Completion, EventDetail, error_code_of,
  failed_round, good_round, work_round, Info, Services, Adaptor, find_info, set_info, erase_info,
  info_of, add, without_events, delete_found, delete, in_range, service_for, find_event_service,
  routed, route,
}

pub find_info-set_info :
    (j sock : ℕ) (i : Info) (m : Services)
    → find_info j (set_info sock i m) ≡ (if sock == j then some i else find_info j m)
unfolding find_info set_info
find_info-set_info j sock i [] = refl
find_info-set_info j sock i ((s, k) ∷ m) = ground (arith, find_info-set_info j sock i m)

pub find_info-erase_info :
    (j sock : ℕ) (m : Services)
    → find_info j (erase_info sock m) ≡ (if sock == j then none else find_info j m)
unfolding find_info erase_info
find_info-erase_info j sock [] = ground arith
find_info-erase_info j sock ((s, k) ∷ m) = ground (arith, find_info-erase_info j sock m)

-- `Add` or `Modify`, and `Delete`.
pub data Change : Type 0 where
  registers : (sock key type service : ℕ) → Change
  drops : (sock type : ℕ) → Change

abbrev pub changed : Change → Adaptor → Adaptor
changed (registers sock key type service) a = add sock key type service a
changed (drops sock type) a = delete sock type a

abbrev pub changes : List Change → Adaptor → Adaptor
changes [] a = a
changes (c ∷ cs) a = changes cs (changed c a)

abbrev socket_of : Change → ℕ
socket_of (registers sock key type service) = sock
socket_of (drops sock type) = sock

abbrev pub AllOthers : ℕ → List Change → Type 0
AllOthers sock [] = Unit {0}
AllOthers sock (c ∷ cs) = ((socket_of c == sock) ≡ false) × AllOthers sock cs

changed-other :
    (sock : ℕ) (c : Change) (a : Adaptor)
    → (socket_of c == sock) ≡ false
    → find_info sock (changed c a).services ≡ find_info sock a.services
unfolding add delete
changed-other sock (registers s key type service) a h =
    find_info-set_info sock s (info_of key service type) a.services ∙ rw h refl
changed-other sock (drops s type) a h = by_found (find_info s a.services)
  where
    by_found :
        (o : Option Info)
        → find_info sock (delete_found s type o a).services ≡ find_info sock a.services
    by_found none = refl
    by_found (some i) = elim (Bool-cases (type == 0)) [
      | inl z ↦ rw z (find_info-erase_info sock s a.services ∙ rw h refl)
      | inr nz ↦ rw nz (find_info-set_info sock s (without_events type i) a.services ∙ rw h refl)
    ]

changes-other :
    (sock : ℕ) (cs : List Change) (a : Adaptor)
    → AllOthers sock cs
    → find_info sock (changes cs a).services ≡ find_info sock a.services
changes-other sock [] a h = refl
changes-other sock (c ∷ cs) a (h, k) =
    changes-other sock cs (changed c a) k ∙ changed-other sock c a h

-- An answer of the completion port for the operation `o` on a socket.
abbrev pub completion : (ret : Bool) (transferred sock last_error : ℕ) → Overlapped → Completion
completion ret transferred sock last_error o = record {
  ret = ret;
  transferred = transferred;
  completion_key = sock;
  overlapped = some o;
  last_error = last_error;
}

-- The event that is made of it, where `key` is the one that was given with the socket.
abbrev pub event_for : (ret : Bool) (transferred key last_error : ℕ) → Overlapped → EventDetail
event_for ret transferred key last_error o = record {
  ptr = key;
  event_type = o.event_type;
  error_code = if ret then pos 0 else error_code_of last_error;
  transferred = transferred;
  handle_id = if ret then o.handle_id else 0;
  address = o.address;
}

work_round_lem :
    (ret : Bool) (n sock err : ℕ) (o : Overlapped)
    → (sock == 0) ≡ false
    → o.is_exit ≡ false
    → work_round (completion ret n sock err o) ≡ event (event_for ret n sock err o)
unfolding work_round failed_round good_round
work_round_lem true n sock err o h e = elim_false o.is_exit e
  where
    elim_false :
        (b : Bool)
        → b ≡ false
        → (if b then ends else event (event_for true n sock err o))
          ≡ event (event_for true n sock err o)
    elim_false true e = cc
    elim_false false e = refl
work_round_lem false n sock err o h e = rw h refl

service_for_lem :
    (d : EventDetail) (i : Info)
    → in_range d.event_type ≡ true
    → service_for d (some i) ≡ some (i.service, record d { ptr = i.completion_key })
unfolding service_for
service_for_lem d i h = by_test (in_range d.event_type) h
  where
    by_test :
        (b : Bool)
        → b ≡ true
        → ◌≡◌ {A = Option (ℕ × EventDetail)}
            (some (
              i.service,
              record d {
                ptr = i.completion_key;
                event_type = if b then d.event_type else bit_or i.event_types error_event;
              },
            ))
            (some (i.service, record d { ptr = i.completion_key }))
    by_test true e = refl
    by_test false e = cc

find_info-delete :
    (sock : ℕ) (i : Info) (b : Adaptor)
    → find_info sock b.services ≡ some i
    → find_info sock (delete sock 0 b).services ≡ none
unfolding delete delete_found
find_info-delete sock i b known =
    ap (λ (v : Option Info). find_info sock (delete_found sock 0 v b).services) known
    ∙ find_info-erase_info sock sock b.services
    ∙ ap (λ (t : Bool). if t then none else find_info sock b.services) (==_self sock)

-- For a socket that is not 0, registered with a service, and whatever is done to other sockets afterwards:
-- a completion of one of its operations, good or failed, with an event type from 1 to 17, reaches that
-- service and no other, with the key of the registration, the bytes and the address of the operation and its
-- event type; the error code and the handle tell a failed one. Behind `Delete` it reaches no service.
pub route-changes :
    (sock key type service : ℕ) (cs : List Change) (a : Adaptor) (ret : Bool) (n err : ℕ)
    (o : Overlapped)
    → AllOthers sock cs
    → (sock == 0) ≡ false
    → o.is_exit ≡ false
    → in_range o.event_type ≡ true
    → let b = changes cs (add sock key type service a) in
      (route (completion ret n sock err o) b ≡ some (service, event_for ret n key err o))
      × (route (completion ret n sock err o) (delete sock 0 b) ≡ none)
unfolding route routed find_event_service add
route-changes sock key type service cs a ret n err o others nz good r =
    let b = changes cs (add sock key type service a) in
    let d = event_for ret n sock err o in
    let known : find_info sock b.services ≡ some (info_of key service type) =
      changes-other sock cs (add sock key type service a) others
      ∙ find_info-set_info sock sock (info_of key service type) a.services
      ∙ ap (λ (t : Bool). if t then some (info_of key service type) else find_info sock a.services)
          (==_self sock) in
    (
      ap (routed b) (work_round_lem ret n sock err o nz good)
          ∙ ap (service_for d) known
          ∙ service_for_lem d (info_of key service type) r,
      ap (routed (delete sock 0 b)) (work_round_lem ret n sock err o nz good)
          ∙ ap (service_for d) (find_info-delete sock (info_of key service type) b known),
    )

-- A failed `ConnectEx` of a connector that has registered the socket, whatever its error, arrives without
-- `kErrorEvent`: the application is told with `OnConnect` that it is connected, with the socket and the
-- value of its record.
pub route-on_connect_event :
    (os : Os) (sock type service : ℕ) (cs : List Change) (a : Adaptor) (n err : ℕ) (o : Overlapped)
    (online : Bool) (p : Property) (s : WinConnector) (t : Trace) (e : WinConnector.Entry)
    → AllOthers sock cs
    → (sock == 0) ≡ false
    → o.is_exit ≡ false
    → o.event_type ≡ connect_event
    → s.heap o.address ≡ some e
    → (d : EventDetail) × (route
          (completion false n sock err o)
          (changes cs (add sock sock type service a))
        ≡ some (service, d))
      × (d.error_code ≡ error_code_of err)
      × (r : (WinConnector × List Notice) × Trace) × (on_connect_event os
            (not (bit_and d.event_type error_event == 0))
            online
            d.address
            p
            s
            t
          ≡ some r)
      × (r.0.1 ≡ connected e.fd e.user ∷ [])
unfolding on_connect_event completion_of
route-on_connect_event os sock type service cs a n err o online p s t e others nz good kind live =
    let d = event_for false n sock err o in
    let no_error : not (bit_and o.event_type error_event == 0) ≡ false =
      ap (λ (k : ℕ). not (bit_and k error_event == 0)) kind in
    (
      d,
      (route-changes sock sock type service cs a false n err o others nz good
          (ap (λ (k : ℕ). in_range k) kind)).0,
      refl,
      completion_of os false online o.address p s t e,
      ap (λ (b : Bool). on_connect_event os b online o.address p s t) no_error
          ∙ ap
              (λ (v : Option WinConnector.Entry).
                elim v as (λ _. Option ((WinConnector × List Notice) × Trace)) [
                  | none ↦ none
                  | some f ↦ some (completion_of os false online o.address p s t f)
                ])
              live,
      refl,
    )
