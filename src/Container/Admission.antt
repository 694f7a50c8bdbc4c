-- ===== src/Container/Admission.antt =====
-- `AttachEndpointImpl` and `CheckConnectionId`: which endpoints are taken, and their ids.
use raptor_lite.Common.{
  ℕ, ◌+◌, ◌-◌, ◌<◌, ◌^◌, ◌≡◌, ◌≢◌, refl, sym, ap, ◌∙◌, Bool, true, false, Option, none, some, List,
  ◌∷◌, arith, ◌==◌, ltb, is_some, length, get_elem?, inl, inr, Bool-cases, ==_self, not_leb_of_lt,
  subst, le_of_not_ltb, ltb→lt,
}
use raptor_lite.Cid.{get_user_id, Fits, build_connection_id, build-get, build_valid}
use raptor_lite.Endpoint.{Endpoint}
use raptor_lite.SliceBuffer.{empty_buffer}
use raptor_lite.Connection.{Connection}
use raptor_lite.Container.{
  Container, Slot, check_connection_id, place, place_at, taken, no_index, attach_in,
  attach_endpoint_impl,
}
use raptor_lite.Container.Timeouts.{find_index}
use raptor_lite.Container.Table.{Inv, get_elem?-some}
use raptor_lite.Container.Growing.{get_elem?_past}
use raptor_lite.Container.Attaching.{
  con_at, con_at_id, con_at_empty, start_heartbeat_timers, timers_Inv, was_vacant, taken-Inv,
  others_taken, here_taken, due_taken,
}

abbrev pub first_of : Option Slot → Option Connection
first_of none = none
first_of (some s) = s.first

-- The connection at an index, if there is one.
abbrev pub holder : Container → ℕ → Option Connection
holder c i = first_of (get_elem? c.mgr i)

-- What an accepted endpoint leaves behind.
pub record Attached (c : Container) (ep : Endpoint) (now : ℕ) : Type 0 where
  pub result : Container
  pub index : ℕ
  pub con : Connection
  pub attaches : attach_endpoint_impl c ep now ≡ some (result, true)
  pub kept : Inv result
  pub vacant_before : holder c index ≡ none
  pub here : holder result index ≡ some con
  pub nothing_sent : con.snd_buffer ≡ empty_buffer
  pub nothing_received : con.rcv_buffer ≡ empty_buffer
  pub protocol : con.proto ≡ c.proto
  pub id : con.endpoint.connection_id ≡ build_connection_id c.magic_number ep.listen_port index
  pub due : find_index index result.timeout_records ≡ some (now + c.connection_timeoutms, index)
  pub others : (j : ℕ) → (j == index) ≡ false → holder result j ≡ holder c j
  pub magic : result.magic_number ≡ c.magic_number
  pub limits : result.settings ≡ c.settings
  pub in_range : index < c.max_container_size

-- The same of a container whose first free index is taken.
record Placed (d : Container) (ep : Endpoint) (now i : ℕ) (r : Container) : Type 0 where
  kept : Inv r
  here : holder r i ≡ some (con_at d ep i)
  due : find_index i r.timeout_records ≡ some (now + d.connection_timeoutms, i)
  others : (j : ℕ) → (j == i) ≡ false → holder r j ≡ holder d j
  before : holder d i ≡ none
  there : i < length d.mgr
  magic : r.magic_number ≡ d.magic_number
  limits : r.settings ≡ d.settings

free_there :
    (d : Container) (i : ℕ) (rest : List ℕ)
    → Inv d
    → d.free_index_list ≡ i ∷ rest
    → i < length d.mgr
free_there d i rest v free = elim (Bool-cases (ltb i (length d.mgr))) [
  | inl lt ↦ ltb→lt i (length d.mgr) lt
  | inr ge ↦
      let e = v.free_vacant i in
      absurd (
        omega (
          arith,
          (rw (free, ==_self i, get_elem?_past d.mgr i (le_of_not_ltb i (length d.mgr) ge)) at e),
        ))
]

no_first : (o : Option Connection) → is_some o ≡ false → o ≡ none
no_first none h = refl
no_first (some k) h = cc

place-Placed :
    (d : Container) (ep : Endpoint) (now i : ℕ) (rest : List ℕ)
    → Inv d
    → d.free_index_list ≡ i ∷ rest
    → Placed d ep now i (place_at d ep now i rest)
unfolding place_at taken
place-Placed d ep now i rest v free =
    let lt : i < length d.mgr = free_there d i rest v free in
    let (s, at_i) = get_elem?-some d.mgr i lt in
    let t : Container = taken d ep now i rest in
    let (ts, e) = start_heartbeat_timers t i (con_at d ep i).handle_id in
    subst (λ (r : Container). Placed d ep now i r) (sym e)
      (record {
        kept = timers_Inv t ts (taken-Inv d ep now i rest s v free at_i);
        here = ap first_of (here_taken d ep now i rest s v free at_i);
        due = due_taken d ep now i rest s v free at_i;
        others = λ j ne. ap first_of (others_taken d ep now i rest s v free at_i j ne);
        before = ap first_of at_i ∙ no_first s.first (was_vacant d ep now i rest s v free at_i);
        there = lt;
        magic = refl;
        limits = refl;
      })

not_last : (i : ℕ) → i < 2 ^ 32 - 1 → (i == 2 ^ 32 - 1) ≡ false
not_last i h = ground arith

attach_in-cons :
    (d : Container) (ep : Endpoint) (now i : ℕ) (rest : List ℕ)
    → d.free_index_list ≡ i ∷ rest
    → attach_in d ep now ≡ some (place_at d ep now i rest, true)
unfolding attach_in place
attach_in-cons d ep now i rest free =
    ap
      (λ (is : List ℕ). elim (place d ep now is) as (λ x. Option (Container × Bool)) [
        | none ↦ none
        | some e ↦ some (e, true)
      ])
      free

no_index-cons :
    (c : Container) (i : ℕ) (rest : List ℕ)
    → c.free_index_list ≡ i ∷ rest
    → no_index c.free_index_list ≡ false
unfolding no_index
no_index-cons c i rest free = ap no_index free

pub attach_here :
    (c : Container) (ep : Endpoint) (now i : ℕ) (rest : List ℕ)
    → Inv c
    → c.free_index_list ≡ i ∷ rest
    → Attached c ep now
unfolding attach_endpoint_impl
attach_here c ep now i rest v free =
    let p = place-Placed c ep now i rest v free in
    record {
      result = place_at c ep now i rest;
      index = i;
      con = con_at c ep i;
      attaches = rw (no_index-cons c i rest free) (attach_in-cons c ep now i rest free);
      kept = p.kept;
      vacant_before = p.before;
      here = p.here;
      nothing_sent = (con_at_empty c ep i).0;
      nothing_received = (con_at_empty c ep i).1;
      protocol = (con_at_empty c ep i).2;
      id = (con_at_id c ep i).0;
      due = p.due;
      others = p.others;
      magic = p.magic;
      limits = p.limits;
      in_range = omega (arith, p.there, v.bounded);
    }

pub attach_here_index :
    (c : Container) (ep : Endpoint) (now i : ℕ) (rest : List ℕ) (v : Inv c)
    (free : c.free_index_list ≡ i ∷ rest)
    → (attach_here c ep now i rest v free).index ≡ i
unfolding attach_here
attach_here_index c ep now i rest v free = refl

-- The table is at its limit, and holds a connection at each index.
pub record Full (c : Container) : Type 0 where
  pub at_limit : length c.mgr ≡ c.max_container_size
  pub all_taken : (i : ℕ) → i < c.max_container_size → holder c i ≢ none

-- The index that an id is checked for is the one in the id.
pub check_connection_id-user :
    (c : Container) (cid i : ℕ) → check_connection_id c cid ≡ some i → get_user_id cid ≡ i
unfolding check_connection_id
check_connection_id-user c cid i h = ground (arith, h)

-- In a container that keeps the invariant, with a 16-bit magic number, the id built from that
-- number, a 16-bit port and an index within the limit passes the check, which reads the index back.
pub check_connection_id-build :
    (c : Container) (port i : ℕ)
    → Inv c
    → c.magic_number < 2 ^ 16
    → port < 2 ^ 16
    → i < c.max_container_size
    → check_connection_id c (build_connection_id c.magic_number port i) ≡ some i
unfolding check_connection_id
check_connection_id-build c port i v m p h =
    let f : Fits c.magic_number port i = record {
      magic_fits = m;
      port_fits = p;
      uid_fits = omega (arith, v.small);
    } in
    let (magic, _, user) = build-get c.magic_number port i f in
    rw
      (
        build_valid c.magic_number port i f (omega (arith, v.small)),
        magic,
        ==_self c.magic_number,
        user,
        not_last i (omega (arith, v.small)),
        not_leb_of_lt c.max_container_size i h,
      )
      refl
