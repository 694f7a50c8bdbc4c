-- ===== src/Container/Attaching.antt =====
-- `AttachEndpointImpl`: the slot it takes and the id it gives.
use raptor_lite.Common.{
  ℕ, ◌+◌, ◌≡◌, refl, sym, ap, ◌∙◌, Bool, false, none, some, List, [], ◌∷◌, ◌++◌, arith, ◌==◌,
  if◌then◌else◌, is_some, length-set, get_elem?, set, inl, inr, Bool-cases, ==_self, eq_of_==,
  subst,
}
use raptor_lite.Words.{u32}
use raptor_lite.Cid.{build_connection_id}
use raptor_lite.Endpoint.{Endpoint, set_connection, set_container}
use raptor_lite.SliceBuffer.{empty_buffer}
use raptor_lite.Connection.{Connection, new_connection, set_protocol}
use raptor_lite.Container.{
  Container, TimerRequest, Slot, connection_of, taken, attached, start_heartbeat,
}
use raptor_lite.Container.Timeouts.{
  insert, count_index, find_index, SortedFrom-insert, find_index-insert, count_index-insert,
}
use raptor_lite.Container.Table.{Inv, count, occupied, vacant, deadline_of, get_elem?-set}

-- The connection for the endpoint at an index.
abbrev pub con_at : Container → Endpoint → ℕ → Connection
con_at c ep i = (attached c ep i).0

abbrev pub slot_at : Container → Endpoint → (now i : ℕ) → Slot
slot_at c ep now i = record {
  first = some (con_at c ep i);
  second = some (now + c.connection_timeoutms, i);
}

pub con_at_id :
    (c : Container) (ep : Endpoint) (i : ℕ)
    → ((con_at c ep i).endpoint.connection_id ≡ build_connection_id c.magic_number ep.listen_port i)
      × ((con_at c ep i).endpoint.listen_port ≡ ep.listen_port)
unfolding attached new_connection set_protocol set_connection set_container
con_at_id c ep i = (refl, refl)

pub con_at_empty :
    (c : Container) (ep : Endpoint) (i : ℕ)
    → ((con_at c ep i).snd_buffer ≡ empty_buffer)
      × ((con_at c ep i).rcv_buffer ≡ empty_buffer)
      × ((con_at c ep i).proto ≡ c.proto)
unfolding attached new_connection set_protocol
con_at_empty c ep i = (refl, refl, refl)

con_at_own :
    (c : Container) (ep : Endpoint) (i : ℕ)
    → (con_at c ep i).endpoint.connection_id
      ≡ build_connection_id c.magic_number (con_at c ep i).endpoint.listen_port i
unfolding attached new_connection set_protocol set_connection set_container
con_at_own c ep i = refl

-- The heartbeat's timer changes only what is asked of the timer.
pub start_heartbeat_timers :
    (c : Container) (i handle : ℕ)
    → (ts : List TimerRequest) × (start_heartbeat c i handle ≡ record c { timers = ts })
unfolding start_heartbeat
start_heartbeat_timers c i handle =
    elim c.heartbeat
      as (λ h.
        (ts : List TimerRequest) × ((elim h [
          | none ↦ c
          | some interval ↦
              if c.timer_thread
              then record c {
                timers =
                    c.timers ++ (record { tid1 = i; tid2 = handle; delay = u32 interval } ∷ []);
              }
              else c
        ])
          ≡ record c { timers = ts })) [
            | none ↦ (c.timers, refl)
            | some interval ↦ elim (Bool-cases c.timer_thread) [
              | inl e ↦ (
                c.timers ++ (record { tid1 = i; tid2 = handle; delay = u32 interval } ∷ []),
                rw e refl,
              )
              | inr e ↦ (c.timers, rw e refl)
            ]
          ]

module _ (c : Container) (ep : Endpoint) (now i : ℕ) (rest : List ℕ) (s : Slot) (v : Inv c)
    (free : c.free_index_list ≡ i ∷ rest) (here : get_elem? c.mgr i ≡ some s) where
  slots :
      (j : ℕ)
      → get_elem? (set c.mgr i (slot_at c ep now i)) j
        ≡ (if j == i then some (slot_at c ep now i) else get_elem? c.mgr j)
  slots j = get_elem?-set c.mgr i j s (slot_at c ep now i) here

  counts : (j : ℕ) → (if j == i then 1 else 0) + count j rest ≡ vacant (get_elem? c.mgr j)
  counts j = sym (ap (count j) free) ∙ v.free_vacant j

  pub was_vacant : is_some s.first ≡ false
  was_vacant = ground (arith, counts i, here)

  no_entry : count_index i c.timeout_records ≡ 0
  no_entry = v.one_deadline i ∙ ap occupied here ∙ ap (λ (b : Bool). if b then 1 else 0) was_vacant

  none_left : count i rest ≡ 0
  none_left = omega (arith, (rw (==_self i, here, was_vacant) at (counts i)))

  free_taken : (j : ℕ) → count j rest ≡ vacant (get_elem? (set c.mgr i (slot_at c ep now i)) j)
  free_taken j = rw (slots j) (elim (Bool-cases (j == i)) [
    | inl e ↦ rw (e, eq_of_== j i e) none_left
    | inr ne ↦ rw ne (omega (arith, (rw ne at (counts j))))
  ])

  one_taken :
      (j : ℕ)
      → count_index j (insert (now + c.connection_timeoutms, i) c.timeout_records)
        ≡ occupied (get_elem? (set c.mgr i (slot_at c ep now i)) j)
  one_taken j =
      rw (slots j, count_index-insert j (now + c.connection_timeoutms) i c.timeout_records)
        (elim (Bool-cases (j == i)) [
          | inl e ↦ rw (e, eq_of_== j i e, no_entry) refl
          | inr ne ↦ rw ne (omega (arith, v.one_deadline j))
        ])

  known_taken :
      (j : ℕ)
      → find_index j (insert (now + c.connection_timeoutms, i) c.timeout_records)
        ≡ deadline_of (get_elem? (set c.mgr i (slot_at c ep now i)) j)
  known_taken j =
      rw (slots j, find_index-insert j (now + c.connection_timeoutms) i c.timeout_records no_entry)
        (elim (Bool-cases (j == i)) [ inl e ↦ rw e refl | inr ne ↦ rw ne (v.known j) ])

  ids_taken :
      (j : ℕ) (con : Connection)
      → connection_of (get_elem? (set c.mgr i (slot_at c ep now i)) j) ≡ some (some con)
      → con.endpoint.connection_id ≡ build_connection_id c.magic_number con.endpoint.listen_port j
  ids_taken j con h = elim (Bool-cases (j == i)) [
    | inl e ↦
        let same : some (some (con_at c ep i)) ≡ some (some con) =
          sym (
            ap connection_of (
              slots j
              ∙ ap (λ (b : Bool). if b then some (slot_at c ep now i) else get_elem? c.mgr j) e))
          ∙ h in
        let it : con_at c ep i ≡ con = grind (arith, same) in
        rw (eq_of_== j i e) (
          subst
            (λ (k : Connection).
              k.endpoint.connection_id
              ≡ build_connection_id c.magic_number k.endpoint.listen_port i)
            it (con_at_own c ep i))
    | inr ne ↦ v.ids j con (
        sym (
          ap connection_of (
            slots j
            ∙ ap (λ (b : Bool). if b then some (slot_at c ep now i) else get_elem? c.mgr j) ne))
        ∙ h)
  ]

  pub taken-Inv : Inv (taken c ep now i rest)
  unfolding taken
  taken-Inv = record {
    free_vacant = free_taken;
    one_deadline = one_taken;
    known = known_taken;
    sorted =
        SortedFrom-insert 0 (now + c.connection_timeoutms) i c.timeout_records (omega arith)
          v.sorted;
    bounded = rw (length-set c.mgr i (slot_at c ep now i)) v.bounded;
    small = v.small;
    ids = ids_taken;
  }

  pub others_taken :
      (j : ℕ) → (j == i) ≡ false → get_elem? (taken c ep now i rest).mgr j ≡ get_elem? c.mgr j
  unfolding taken
  others_taken j ne =
      slots j ∙ ap (λ (b : Bool). if b then some (slot_at c ep now i) else get_elem? c.mgr j) ne

  pub here_taken : get_elem? (taken c ep now i rest).mgr i ≡ some (slot_at c ep now i)
  unfolding taken
  here_taken =
      slots i
      ∙ ap (λ (b : Bool). if b then some (slot_at c ep now i) else get_elem? c.mgr i) (==_self i)

  pub due_taken :
      find_index i (taken c ep now i rest).timeout_records ≡ some (now + c.connection_timeoutms, i)
  unfolding taken
  due_taken = known_taken i ∙ ap deadline_of here_taken

pub timers_Inv : (c : Container) (ts : List TimerRequest) → Inv c → Inv (record c { timers = ts })
timers_Inv c ts v = record {
  free_vacant = v.free_vacant;
  one_deadline = v.one_deadline;
  known = v.known;
  sorted = v.sorted;
  bounded = v.bounded;
  small = v.small;
  ids = v.ids;
}
